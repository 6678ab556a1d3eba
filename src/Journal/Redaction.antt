-- ===== src/Journal/Redaction.antt =====
-- What `redact` of src/llm_harness/journal.py makes of a value.
use ho_h.Prelude.{String, true, false, List, [], ◌∷◌, ◌≡◌, refl}
use ho_h.Json.{Json, null, flag, int, float, str, arr, obj, Items, nil, cons, Fields, end, field}
use ho_h.Journal.{Patterns, scrub_credentials, scrub_text, redact, redact_items, redact_fields}

-- the second text comes from the first by the substitutions, one after the other
pub Chain : List (String → String) → String → String → Type 0
Chain [] s t = t ≡ s
Chain (substitute ∷ rest) s t = (next : String) × (next ≡ substitute s) × Chain rest next t

abbrev pub substitutions : Patterns → List (String → String)
substitutions p = p.bot_token ∷ p.bearer ∷ p.env_secret ∷ p.credential_shapes

-- The second value is the first one redacted: the same lists and dictionaries with the same keys,
-- numbers, flags and null as they are, the mark under each key that looks secret, and elsewhere each
-- text behind the substitutions.
mutual
  pub IsRedacted : Patterns → Json → Json → Type 0
  IsRedacted p null w = w ≡ null
  IsRedacted p (flag b) w = w ≡ flag b
  IsRedacted p (int z) w = w ≡ int z
  IsRedacted p (float x) w = w ≡ float x
  IsRedacted p (str s) w = (t : String) × (w ≡ str t) × Chain (substitutions p) s t
  IsRedacted p (arr xs) w = (ys : Items) × (w ≡ arr ys) × AreRedacted p xs ys
  IsRedacted p (obj fs) w = (gs : Fields) × (w ≡ obj gs) × HasRedacted p fs gs

  pub AreRedacted : Patterns → Items → Items → Type 0
  AreRedacted p nil ys = ys ≡ nil
  AreRedacted p (cons x xs) ys =
      (y : Json) × (rest : Items) × (ys ≡ cons y rest) × IsRedacted p x y × AreRedacted p xs rest

  pub HasRedacted : Patterns → Fields → Fields → Type 0
  HasRedacted p end gs = gs ≡ end
  HasRedacted p (field k v fs) gs =
      (w : Json) × (rest : Fields) × (gs ≡ field k w rest)
      × (p.secret_key k ≡ true → w ≡ str "<redacted>")
      × (p.secret_key k ≡ false → IsRedacted p v w)
      × HasRedacted p fs rest

scrub_credentials-Chain :
    (fs : List (String → String)) (s : String) → Chain fs s (scrub_credentials fs s)
unfolding Chain scrub_credentials
scrub_credentials-Chain [] s = refl
scrub_credentials-Chain (f ∷ fs) s = (f s, refl, scrub_credentials-Chain fs (f s))

scrub_text-Chain : (p : Patterns) (s : String) → Chain (substitutions p) s (scrub_text p s)
unfolding scrub_credentials scrub_text
scrub_text-Chain p s = scrub_credentials-Chain (substitutions p) s

mutual
  unfolding IsRedacted AreRedacted HasRedacted redact redact_items redact_fields

  IsRedacted-value : (v : Json) (p : Patterns) → IsRedacted p v (redact v p)
  IsRedacted-value null p = refl
  IsRedacted-value (flag b) p = refl
  IsRedacted-value (int z) p = refl
  IsRedacted-value (float x) p = refl
  IsRedacted-value (str s) p = (scrub_text p s, refl, scrub_text-Chain p s)
  IsRedacted-value (arr xs) p = (redact_items xs p, refl, IsRedacted-items xs p)
  IsRedacted-value (obj fs) p = (redact_fields fs p, refl, IsRedacted-fields fs p)

  IsRedacted-items : (xs : Items) (p : Patterns) → AreRedacted p xs (redact_items xs p)
  IsRedacted-items nil p = refl
  IsRedacted-items (cons x xs) p =
      (redact x p, redact_items xs p, refl, IsRedacted-value x p, IsRedacted-items xs p)

  IsRedacted-fields : (fs : Fields) (p : Patterns) → HasRedacted p fs (redact_fields fs p)
  IsRedacted-fields end p = refl
  IsRedacted-fields (field k v fs) p = (
    _,
    redact_fields fs p,
    refl,
    λ secret. rw secret refl,
    λ plain. rw plain (IsRedacted-value v p),
    IsRedacted-fields fs p,
  )

-- A redacted value has the lists and the dictionaries of the value that it is made of, with the same
-- keys. The value under a key that matches `SECRET_KEY_RE` is the text `<redacted>`, at any depth; of
-- what is under no such key, each text is the original text after the substitutions of bot tokens, of
-- bearer tokens, of secrets of the environment, and then of each shape of a credential in their order,
-- and numbers, flags and null are the original ones. Keys are not substituted in.
pub redact-IsRedacted : (v : Json) (p : Patterns) → IsRedacted p v (redact v p)
redact-IsRedacted v p = IsRedacted-value v p
