-- ===== src/Ids/Distinct.antt =====
-- An id determines the parts that it is composed of: no part before the last holds a dot.
use Prim.Native.Char.{Char, code}
use text.Mathlib.TextLemmas.{
  nil-append, cons-append, append_cancel_left, head-eq_of_cons-eq, tail-eq_of_cons-eq,
}
use rtlfarm.Prelude.{
  ℕ, String, ◌++ˢ◌, ◌≡◌, refl, sym, ap, ap₂, subst, ◌∙◌, ◌≢◌, ◌⊎◌, inl, inr, Bool, true, false, all,
  All, All_of_Memᴰ, All-Memᴰ, all_iff, contains, contains_iff, Bool-cases, ok, ◌==◌, string_eq,
  arith,
}
use rtlfarm.Ids.{
  codes, is_name_char, is_name, is_ulid_char, is_ulid, stage_kinds, whole_design_target,
  validate_name, task_id_text, task_id,
}
use rtlfarm.Ids.Decimal.{decimal_inj}

-- No character is a dot.
abbrev pub NoDot : String → Type 0
NoDot s = All (λ c. c ≢ b'.') (codes s)

abbrev dot : Char
dot = "."

dot-ne : (c : Char) (s x : String) → code c ≢ b'.' → "." ++ˢ x ≡ String.◌∷◌ c s → ⊥
dot-ne c s x h e = h (ap code (sym (head-eq_of_cons-eq (sym (cons-append dot String.[] x) ∙ e))))

-- The text before the first dot, and the text behind it.
dot_split :
    (a b x y : String)
    → NoDot a
    → NoDot b
    → a ++ˢ ("." ++ˢ x) ≡ b ++ˢ ("." ++ˢ y)
    → (a ≡ b) × (x ≡ y)
dot_split String.[] String.[] x y ha hb e =
    (refl, append_cancel_left "." x y (sym (nil-append _) ∙ e ∙ nil-append _))
dot_split String.[] (String.◌∷◌ d b) x y ha hb e =
    absurd (dot-ne d _ x hb.0 (sym (nil-append _) ∙ e ∙ cons-append d b ("." ++ˢ y)))
dot_split (String.◌∷◌ c a) String.[] x y ha hb e =
    absurd (dot-ne c _ y ha.0 (sym (nil-append _) ∙ sym e ∙ cons-append c a ("." ++ˢ x)))
dot_split (String.◌∷◌ c a) (String.◌∷◌ d b) x y ha hb e =
    let e' = sym (cons-append c a ("." ++ˢ x)) ∙ e ∙ cons-append d b ("." ++ˢ y) in
    let (same, rest) = dot_split a b x y ha.1 hb.1 (tail-eq_of_cons-eq e') in
    (ap₂ String.◌∷◌ (head-eq_of_cons-eq e') same, rest)

all-NoDot : (p : ℕ → Bool) (s : String) → p b'.' ≡ false → all p (codes s) ≡ true → NoDot s
all-NoDot p s no_dot h = All_of_Memᴰ _ (codes s) λ c m same.
    let accepted : p c ≡ true =
      All-Memᴰ (λ c. p c ≡ true) (codes s) ((all_iff p (codes s)).0 h) m in
    cc (ap p same)

is_name-NoDot : (s : String) → is_name s ≡ true → NoDot s
unfolding is_name
is_name-NoDot s h = all-NoDot is_name_char s (unfold is_name_char in refl) (ground arith)

is_ulid-NoDot : (s : String) → is_ulid s ≡ true → NoDot s
unfolding is_ulid
is_ulid-NoDot String.[] h = tt
is_ulid-NoDot (String.◌∷◌ c s) h =
    (ground arith, all-NoDot is_ulid_char s (unfold is_ulid_char in refl) (ground arith))

stage_kinds-NoDot : (kind : String) → contains stage_kinds kind ≡ true → NoDot kind
stage_kinds-NoDot kind h =
    All-Memᴰ NoDot stage_kinds (omega arith) ((contains_iff stage_kinds kind).0 h)

-- What `task_id` requires of its arguments.
pub record AreParts (job_id stage_kind target : String) : Type 0 where
  pub ulid : is_ulid job_id ≡ true
  pub kind : contains stage_kinds stage_kind ≡ true
  pub name : ((target == whole_design_target) ≡ true) ⊎ (is_name target ≡ true)

pub task_id-ok :
    (job_id stage_kind target : String) (seed : ℕ)
    → AreParts job_id stage_kind target
    → task_id job_id stage_kind target seed ≡ ok (task_id_text job_id stage_kind target seed)
unfolding task_id validate_name
task_id-ok job_id stage_kind target seed h = elim h.name [
  | inl whole ↦ rw (h.ulid, h.kind, whole)
  | inr named ↦
      rw (h.ulid, h.kind)
        (elim (Bool-cases (target == whole_design_target)) [
          | inl whole ↦ rw whole
          | inr targeted ↦ rw (targeted, named)
        ])
]

pub task_id-eq-ok :
    (job_id stage_kind target : String) (seed : ℕ) (id : String)
    → task_id job_id stage_kind target seed ≡ ok id
    → AreParts job_id stage_kind target × (id ≡ task_id_text job_id stage_kind target seed)
unfolding task_id validate_name
task_id-eq-ok job_id stage_kind target seed id h = ground arith

target-NoDot :
    (target : String)
    → ((target == whole_design_target) ≡ true) ⊎ (is_name target ≡ true)
    → NoDot target
target-NoDot target (inl whole) =
    subst NoDot (sym ((string_eq.beq_iff target whole_design_target).0 whole)) (omega arith)
target-NoDot target (inr named) = is_name-NoDot target named

pub text_inj :
    (j k t j' k' t' : String) (s s' : ℕ)
    → AreParts j k t
    → AreParts j' k' t'
    → task_id_text j k t s ≡ task_id_text j' k' t' s'
    → (j ≡ j') × (k ≡ k') × (t ≡ t') × (s ≡ s')
unfolding task_id_text
text_inj j k t j' k' t' s s' h h' e =
    let (same_job, e₁) = dot_split j j' _ _ (is_ulid-NoDot j h.ulid) (is_ulid-NoDot j' h'.ulid) e in
    let (same_kind, e₂) =
      dot_split k k' _ _ (stage_kinds-NoDot k h.kind) (stage_kinds-NoDot k' h'.kind) e₁ in
    let (same_target, e₃) =
      dot_split t t' _ _ (target-NoDot t h.name) (target-NoDot t' h'.name) e₂ in
    (same_job, same_kind, same_target, decimal_inj s s' (append_cancel_left "s" _ _ e₃))

-- Two calls of `task_id` that return the same id were given the same job id, stage kind, target
-- and seed.
pub task_id_inj :
    (j k t j' k' t' : String) (s s' : ℕ) (id : String)
    → task_id j k t s ≡ ok id
    → task_id j' k' t' s' ≡ ok id
    → (j ≡ j') × (k ≡ k') × (t ≡ t') × (s ≡ s')
task_id_inj j k t j' k' t' s s' id h h' =
    let (parts, text) = task_id-eq-ok j k t s id h in
    let (parts', text') = task_id-eq-ok j' k' t' s' id h' in
    text_inj j k t j' k' t' s s' parts parts' (sym text ∙ text')
