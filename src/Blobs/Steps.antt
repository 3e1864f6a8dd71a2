-- ===== src/Blobs/Steps.antt =====
-- Several uploads at once: what the event loop may do with the requests in progress, one await at a
-- time.
use rtlfarm.Prelude.{
  ℕ, ◌≤◌, String, ◌≡◌, inr, List, length, lookup, insert, erase, none, some, string_eq,
}
use rtlfarm.Blobs.{Bytes, BlobsConfig, BlobError, cap_for, Store}
use rtlfarm.Blobs.Ingest.{Upload, refused, taken, admit, open_tmp, drop_tmp, receive, finish}

pub record System : Type 0 where
  pub store : Store
  -- The uploads in progress, by their id.
  pub running : List (String × Upload)

module _ (sha256 : Bytes → String) (caps : BlobsConfig) where
  -- A request is admitted under an id that names no file of `tmp/`; a chunk of an upload is taken or
  -- refused; its body breaks off; or it ends.
  pub data Step (s : System) : System → Type 0 where
    opens :
        (id kind expected : String) (u : Upload)
        → lookup s.store.tmp id ≡ none
        → admit caps id kind expected ≡ inr u
        → Step s (record { store = open_tmp s.store id; running = insert s.running id u })
    takes :
        (id : String) (bytes : Bytes) (u more : Upload) (store : Store)
        → lookup s.running id ≡ some u
        → receive u bytes s.store ≡ taken more store
        → Step s (record { store = store; running = insert s.running id more })
    refuses :
        (id : String) (bytes : Bytes) (u : Upload) (e : BlobError) (store : Store)
        → lookup s.running id ≡ some u
        → receive u bytes s.store ≡ refused e store
        → Step s (record { store = store; running = erase s.running id })
    breaks_off :
        (id : String) (u : Upload)
        → lookup s.running id ≡ some u
        → Step s (record { store = drop_tmp s.store u.id; running = erase s.running id })
    ends :
        (id : String) (u : Upload)
        → lookup s.running id ≡ some u
        → Step s (record { store = (finish sha256 u s.store).1; running = erase s.running id })

  pub data Reach (s : System) : System → Type 0 where
    here : Reach s s
    next : {t u : System} → Reach s t → Step t u → Reach s u

  -- A file's name is the digest of its content, and its size is within the cap of some kind.
  abbrev pub IsBlob : String → Bytes → Type 0
  IsBlob name content =
      (sha256 content ≡ name)
      × (kind : String) × (cap : ℕ) × (cap_for kind caps ≡ some cap)
      × (length content ≤ cap)

  -- An upload's file in `tmp/` holds what its hasher has taken in, within its cap.
  pub record IsHeld (store : Store) (id : String) (u : Upload) : Type 0 where
    pub own : u.id ≡ id
    pub written : lookup store.tmp id ≡ some u.content
    pub sized : u.size ≡ length u.content
    pub fits : u.size ≤ u.cap
    pub capped : cap_for u.kind caps ≡ some u.cap

  pub record IsSafe (s : System) : Type 0 where
    pub addressed :
        (name : String) (content : Bytes)
        → lookup s.store.files name ≡ some content
        → IsBlob name content
    pub held : (id : String) (u : Upload) → lookup s.running id ≡ some u → IsHeld s.store id u
    -- Every file in `tmp/` is of an upload in progress.
    pub owned :
        (id : String) (content : Bytes)
        → lookup s.store.tmp id ≡ some content
        → (u : Upload) × (lookup s.running id ≡ some u)
