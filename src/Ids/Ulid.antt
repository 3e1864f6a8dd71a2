-- ===== src/Ids/Ulid.antt =====
-- `new_ulid`: 48 bits of time and 80 random bits in Crockford base 32.
--
-- The 80 bits that `os.urandom` supplies are an argument.
use Prim.Native.Char.{Char, code}
use rtlfarm.Prelude.{
  ℕ, zero, suc, ◌+◌, ◌*◌, ◌/◌, ◌%◌, ◌^◌, ◌≤◌, ◌<◌, String, ◌≡◌, refl, ◌∙◌, Bool, true, false, not,
  ◌&&◌, List, [], ◌∷◌, leb, ltb, length, all, if◌then◌else◌, Result, ok, raise, clock_out_of_range,
  nat_eq, arith, inl, inr, Bool-cases, nat_beq,
}
use rtlfarm.Sorting.{precedes}
use rtlfarm.Ids.{codes, is_ulid_char, is_ulid}

abbrev ulid_alphabet : List Char
ulid_alphabet =
    "0" ∷ "1" ∷ "2" ∷ "3" ∷ "4" ∷ "5" ∷ "6" ∷ "7" ∷ "8" ∷ "9" ∷ "A" ∷ "B" ∷ "C" ∷ "D" ∷ "E" ∷ "F"
    ∷ "G" ∷ "H" ∷ "J" ∷ "K" ∷ "M" ∷ "N" ∷ "P" ∷ "Q" ∷ "R" ∷ "S" ∷ "T" ∷ "V" ∷ "W" ∷ "X" ∷ "Y" ∷ "Z"
    ∷ []

char_at : List Char → ℕ → Char
char_at [] i = "0"
char_at (c ∷ cs) zero = c
char_at (c ∷ cs) (suc i) = char_at cs i

-- _ULID_ALPHABET[d], for d < 32
symbol : ℕ → Char
unfolding char_at
symbol d = char_at ulid_alphabet d

-- The loop, with the characters so far in front-to-back order: `reversed` is not needed.
spell : ℕ → ℕ → String → String
unfolding symbol
spell zero value chars = chars
spell (suc rounds) value chars = spell rounds (value / 32) (String.◌∷◌ (symbol (value % 32)) chars)

-- (now_ms << 80) | random, for random < 2 ^ 80: the two have no bit in common.
value_of : ℕ → ℕ → ℕ
value_of random now_ms = now_ms * 2 ^ 80 + random

unfoldable pub new_ulid : ℕ → ℕ → Result String
unfolding spell value_of
new_ulid random now_ms =
    if not (ltb now_ms (2 ^ 48))
    then raise (clock_out_of_range now_ms)
    else ok (spell 26 (value_of random now_ms) "")

-- Over a small range, a test is checked value by value.
each_below : (ℕ → Bool) → ℕ → Bool
each_below test zero = true
each_below test (suc top) = each_below test top && test top

each_below_lem :
    (test : ℕ → Bool) (top d : ℕ) → d < top → each_below test top ≡ true → test d ≡ true
unfolding each_below
each_below_lem test zero d lt h = absurd (omega arith)
each_below_lem test (suc top) d lt h = elim (Bool-cases (nat_beq d top)) [
  | inl last ↦ let same : d ≡ top = ground arith in rw same (ground arith)
  | inr before ↦ each_below_lem test top d (ground arith) (ground arith)
]

symbol_table : each_below (λ d. is_ulid_char (code (symbol d))) 32 ≡ true
unfolding each_below symbol is_ulid_char
symbol_table = refl

symbol-is_ulid_char : (d : ℕ) → d < 32 → is_ulid_char (code (symbol d)) ≡ true
symbol-is_ulid_char d h = each_below_lem (λ d. is_ulid_char (code (symbol d))) 32 d h symbol_table

-- The order of the alphabet is the order of the code points.
rising : ℕ → Bool
rising d = each_below (λ e. ltb (code (symbol e)) (code (symbol d))) d

rising_table : each_below rising 32 ≡ true
unfolding each_below symbol rising
rising_table = refl

symbol_mono : (d e : ℕ) → d < 32 → e < d → code (symbol e) < code (symbol d)
unfolding rising
symbol_mono d e h lt =
    let t = each_below_lem _ d e lt (each_below_lem rising 32 d h rising_table) in ground arith

all-spell :
    (rounds value : ℕ) (chars : String)
    → all is_ulid_char (codes chars) ≡ true
    → all is_ulid_char (codes (spell rounds value chars)) ≡ true
unfolding spell
all-spell zero value chars h = h
all-spell (suc rounds) value chars h =
    all-spell rounds (value / 32) _
      (let s = symbol-is_ulid_char (value % 32) (omega arith) in ground arith)

length-spell :
    (rounds value : ℕ) (chars : String)
    → length (codes (spell rounds value chars)) ≡ rounds + length (codes chars)
unfolding spell
length-spell zero value chars = omega arith
length-spell (suc rounds) value chars =
    let h = length-spell rounds (value / 32) (String.◌∷◌ (symbol (value % 32)) chars) in omega arith

-- [0-7]
opens : String → Bool
opens String.[] = false
opens (String.◌∷◌ c s) = leb b'0' (code c) && leb (code c) b'7'

opening_table : each_below (λ d. leb b'0' (code (symbol d)) && leb (code (symbol d)) b'7') 8 ≡ true
unfolding each_below symbol
opening_table = refl

opens-spell :
    (rounds value : ℕ) (chars : String)
    → value < 8 * 32 ^ rounds
    → opens (spell (suc rounds) value chars) ≡ true
unfolding spell opens
opens-spell zero value chars h =
    let small =
      each_below_lem (λ d. leb b'0' (code (symbol d)) && leb (code (symbol d)) b'7') 8 (value % 32)
        (omega arith) opening_table in
    small
opens-spell (suc rounds) value chars h =
    opens-spell rounds (value / 32) (String.◌∷◌ (symbol (value % 32)) chars) (omega arith)

is_ulid_of :
    (s : String)
    → opens s ≡ true
    → length (codes s) ≡ 26
    → all is_ulid_char (codes s) ≡ true
    → is_ulid s ≡ true
unfolding opens is_ulid
is_ulid_of String.[] o n a = ground arith
is_ulid_of (String.◌∷◌ c s) o n a = ground arith

precedes-spell_chars :
    (rounds value : ℕ) (chars chars' : String)
    → precedes (codes chars) (codes chars') ≡ true
    → precedes (codes (spell rounds value chars)) (codes (spell rounds value chars')) ≡ true
unfolding spell precedes
precedes-spell_chars zero value chars chars' h = h
precedes-spell_chars (suc rounds) value chars chars' h =
    precedes-spell_chars rounds (value / 32) _ _ (ground arith)

precedes-spell :
    (rounds a b : ℕ) (chars chars' : String)
    → a < b
    → b < 32 ^ rounds
    → precedes (codes (spell rounds a chars)) (codes (spell rounds b chars')) ≡ true
unfolding spell precedes
precedes-spell zero a b chars chars' lt fits = absurd (omega arith)
precedes-spell (suc rounds) a b chars chars' lt fits = elim (Bool-cases (ltb (a / 32) (b / 32))) [
  | inl lower ↦ precedes-spell rounds (a / 32) (b / 32) _ _ (ground arith) (omega arith)
  | inr same ↦
      let quotient : a / 32 ≡ b / 32 = ground arith in
      let smaller : a % 32 < b % 32 = omega arith in
      let s = symbol_mono (b % 32) (a % 32) (omega arith) smaller in
      rw quotient (precedes-spell_chars rounds (b / 32) _ _ (ground arith))
]

spell-is_ulid :
    (rounds value : ℕ)
    → rounds ≡ 25
    → value < 8 * 32 ^ rounds
    → is_ulid (spell (suc rounds) value "") ≡ true
spell-is_ulid rounds value size h =
    is_ulid_of (spell (suc rounds) value "") (opens-spell rounds value "" h)
      (length-spell (suc rounds) value "" ∙ omega arith) (all-spell (suc rounds) value "" refl)

value_of_fits :
    (random now_ms : ℕ) → random < 2 ^ 80 → now_ms < 2 ^ 48 → value_of random now_ms < 8 * 32 ^ 25
unfolding value_of
value_of_fits random now_ms h h' = omega arith

value_of_rises :
    (random random' now_ms now_ms' : ℕ)
    → random < 2 ^ 80
    → now_ms < now_ms'
    → value_of random now_ms < value_of random' now_ms'
unfolding value_of
value_of_rises random random' now_ms now_ms' h lt = omega arith

-- Whatever the 80 random bits are, `new_ulid` returns a ULID for a time below 2 ^ 48 and raises for
-- any other.
pub new_ulid-is_ulid :
    (random now_ms : ℕ)
    → random < 2 ^ 80
    → (now_ms < 2 ^ 48 → (id : String) × (new_ulid random now_ms ≡ ok id) × (is_ulid id ≡ true))
      × (2 ^ 48 ≤ now_ms → new_ulid random now_ms ≡ raise (clock_out_of_range now_ms))
unfolding new_ulid
new_ulid-is_ulid random now_ms small = (
  λ early.
      let inside : ltb now_ms (2 ^ 48) ≡ true = ground arith in
      (
        spell 26 (value_of random now_ms) "",
        rw inside,
        spell-is_ulid 25 _ refl (value_of_fits random now_ms small early),
      ),
  λ late. let outside : ltb now_ms (2 ^ 48) ≡ false = ground arith in rw outside,
)

new_ulid-eq-ok :
    (random now_ms : ℕ) (id : String)
    → new_ulid random now_ms ≡ ok id
    → (now_ms < 2 ^ 48) × (id ≡ spell 26 (value_of random now_ms) "")
unfolding new_ulid
new_ulid-eq-ok random now_ms id h = ground arith

-- Of two ids that `new_ulid` returns, the one made at the earlier time comes first in the order of
-- texts, whatever the random bits of the two are.
pub new_ulid_rises :
    (random random' now_ms now_ms' : ℕ) (id id' : String)
    → random < 2 ^ 80
    → random' < 2 ^ 80
    → now_ms < now_ms'
    → new_ulid random now_ms ≡ ok id
    → new_ulid random' now_ms' ≡ ok id'
    → precedes (codes id) (codes id') ≡ true
new_ulid_rises random random' now_ms now_ms' id id' small small' earlier e e' =
    let (inside, text) = new_ulid-eq-ok random now_ms id e in
    let (inside', text') = new_ulid-eq-ok random' now_ms' id' e' in
    rw (text, text')
      (precedes-spell 26 (value_of random now_ms) (value_of random' now_ms') "" ""
        (value_of_rises random random' now_ms now_ms' small earlier)
        (let fits = value_of_fits random' now_ms' small' inside' in omega arith))
