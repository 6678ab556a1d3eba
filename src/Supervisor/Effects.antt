-- ===== src/Supervisor/Effects.antt =====
-- What the calls of src/llm_harness/supervisor.py do to the repository, and rules for methods that are
-- composed of others.
use ho_h.Prelude.{
  String, Bool, true, false, ◌&&◌, Option, none, some, List, [], ◌∷◌, ◌≡◌, refl, sym, subst, ◌∙◌,
  arith, ◌==◌, string_eq, if◌then◌else◌,
}
use ho_h.Prelude.Exec.{Result, ok, err, pure, raise, then_run, ◌>>=◌}
use ho_h.Git.{Task}
use ho_h.Git.Calls.{Desk, Failure, ask, Call, git}

-- A patch applied or taken back, paths staged, or a commit with its message.
pub data Effect : Type 0 where
  applied reverted committed : String → Effect
  staged : List String → Effect

-- the effects in their order, the latest first
abbrev pub Effects : Type 0
Effects = List Effect

abbrev pub input_text : Option String → String
input_text none = ""
input_text (some text) = text

abbrev pub first_of : List String → String
first_of [] = ""
first_of (x ∷ xs) = x

abbrev pub applying : String → Effects → Effects
applying patch e = applied patch ∷ e

abbrev pub reverting : String → Effects → Effects
reverting patch e = reverted patch ∷ e

abbrev pub staging : List String → Effects → Effects
staging [] e = e
staging (p ∷ ps) e = staged (p ∷ ps) ∷ e

abbrev pub committing : String → Effects → Effects
committing message e = committed message ∷ e

-- The effect of `git` with a verb and what follows it.
abbrev pub git_effect : String → List String → Option String → Effects → Effects
git_effect verb [] input e = if verb == "apply" then applying (input_text input) e else e
git_effect verb (word ∷ rest) input e =
    if verb == "commit"
    then committing (first_of rest) e
    else if verb == "add"
    then staging rest e
    else if verb == "apply" && word == "-R"
    then reverting (input_text input) e
    else e

abbrev pub effect_of : Call → Effects → Effects
effect_of (git (verb ∷ rest) input) e = git_effect verb rest input e
effect_of _ e = e

unfoldable pub effects : List Call → Effects
effects [] = []
effects (call ∷ calls) = effect_of call (effects calls)

-- A method has no effect, whether it returns or raises.
abbrev pub Quiet : {A : Type 0} → Task A → Type 0
Quiet m = (desk : Desk) → effects (m desk).1.calls ≡ effects desk.calls

-- Where the method returns, its effect is `δ` at what it returns.
abbrev pub Steps : {A : Type 0} → (A → Effects → Effects) → Task A → Type 0
Steps {A} δ m =
    (desk : Desk) (a : A) → (m desk).0 ≡ ok a → effects (m desk).1.calls ≡ δ a (effects desk.calls)

-- Where the method returns, the effects before, what it returns and the effects behind are related.
abbrev pub Sound : {A : Type 0} → (Effects → A → Effects → Type 0) → Task A → Type 0
Sound {A} P m =
    (desk : Desk) (a : A) → (m desk).0 ≡ ok a → P (effects desk.calls) a (effects (m desk).1.calls)

pub Quiet-Steps : {A : Type 0} (m : Task A) → Quiet m → Steps (λ _ e. e) m
Quiet-Steps m q desk a h = q desk

module _ {A B : Type 0} where
  pub Quiet->>= :
      (m : Task A) (f : A → Task B) → Quiet m → ((a : A) → Quiet (f a)) → Quiet (m >>= f)
  unfolding ◌>>=◌
  Quiet->>= m f qm qf desk = go (m desk).0 (m desk).1 (qm desk)
    where
      go :
          (r : Result Failure A) (after : Desk)
          → effects after.calls ≡ effects desk.calls
          → effects (then_run r f after).1.calls ≡ effects desk.calls
      go (ok a) after h = qf a after ∙ h
      go (err e) after h = h

  -- a method that steps, and then one that is sound
  pub Sound->>= :
      (δ : A → Effects → Effects) (P : A → Effects → B → Effects → Type 0) (m : Task A)
      (f : A → Task B)
      → Steps δ m
      → ((a : A) → Sound (P a) (f a))
      → Sound (λ e b e'. (a : A) × P a (δ a e) b e') (m >>= f)
  unfolding ◌>>=◌
  Sound->>= δ P m f sm sf desk b = go (m desk).0 (m desk).1 (sm desk)
    where
      go :
          (r : Result Failure A) (after : Desk)
          → ((a : A) → r ≡ ok a → effects after.calls ≡ δ a (effects desk.calls))
          → (then_run r f after).0 ≡ ok b
          → (a : A) × P a (δ a (effects desk.calls)) b (effects (then_run r f after).1.calls)
      go (err e) after step h = absurd (ground (arith, h))
      go (ok a) after step h =
          (a, subst (λ e. P a e b (effects (f a after).1.calls)) (step a refl) (sf a after b h))

  -- a method without effect, and then one that is sound
  pub Sound-after :
      (P : Effects → B → Effects → Type 0) (m : Task A) (f : A → Task B)
      → Quiet m
      → ((a : A) → Sound P (f a))
      → Sound P (m >>= f)
  Sound-after P m f qm sf desk b h =
      (Sound->>= (λ _ e. e) (λ _. P) m f (Quiet-Steps m qm) sf desk b h).1

  -- a method without effect that returns only what has a property, and then one that is sound for it
  pub Sound-known :
      (P : Effects → B → Effects → Type 0) (K : A → Type 0) (m : Task A) (f : A → Task B)
      → Quiet m
      → ((desk : Desk) (a : A) → (m desk).0 ≡ ok a → K a)
      → ((a : A) → K a → Sound P (f a))
      → Sound P (m >>= f)
  unfolding ◌>>=◌
  Sound-known P K m f qm known sf desk b = go (m desk).0 (m desk).1 (qm desk) (known desk)
    where
      go :
          (r : Result Failure A) (after : Desk)
          → effects after.calls ≡ effects desk.calls
          → ((a : A) → r ≡ ok a → K a)
          → (then_run r f after).0 ≡ ok b
          → P (effects desk.calls) b (effects (then_run r f after).1.calls)
      go (err e) after same k h = absurd (ground (arith, h))
      go (ok a) after same k h =
          subst (λ e. P e b (effects (f a after).1.calls)) same (sf a (k a refl) after b h)

-- a method without effect, of which it is known what it returns where, and one that is sound for it
pub Sound-knowing :
    {A B : Type 0} (P : Effects → B → Effects → Type 0) (K : Effects → A → Type 0) (m : Task A)
    (f : A → Task B)
    → Quiet m
    → ((desk : Desk) (a : A) → (m desk).0 ≡ ok a → K (effects desk.calls) a)
    → ((a : A) → Sound (λ e b e'. K e a → P e b e') (f a))
    → Sound P (m >>= f)
unfolding ◌>>=◌
Sound-knowing {A} {B} P K m f qm known sf desk b = go (m desk).0 (m desk).1 (qm desk) (known desk)
  where
    go :
        (r : Result Failure A) (after : Desk)
        → effects after.calls ≡ effects desk.calls
        → ((a : A) → r ≡ ok a → K (effects desk.calls) a)
        → (then_run r f after).0 ≡ ok b
        → P (effects desk.calls) b (effects (then_run r f after).1.calls)
    go (err e) after same k h = absurd (ground (arith, h))
    go (ok a) after same k h =
        subst (λ e. P e b (effects (f a after).1.calls)) same
          (sf a after b h (subst (λ e. K e a) (sym same) (k a refl)))

pub Sound-weaken :
    {A : Type 0} (P Q : Effects → A → Effects → Type 0) (m : Task A)
    → ((e e' : Effects) (a : A) → P e a e' → Q e a e')
    → Sound P m
    → Sound Q m
Sound-weaken P Q m weaker s desk a h =
    weaker (effects desk.calls) (effects (m desk).1.calls) a (s desk a h)

pub Quiet-pure : {A : Type 0} (a : A) → Quiet (pure a)
unfolding pure
Quiet-pure a desk = refl

pub Quiet-raise : (A : Type 0) (e : Failure) → Quiet {A = A} (raise e)
unfolding raise
Quiet-raise A e desk = refl

-- a call that is no call of git has no effect
pub Quiet-ask :
    {A : Type 0} (call : Call) (answer : List Call → A)
    → ((e : Effects) → effect_of call e ≡ e)
    → Quiet (ask call answer)
unfolding ask effects
Quiet-ask call answer none_seen desk = none_seen (effects desk.calls)

pub Sound-pure :
    {A : Type 0} (P : Effects → A → Effects → Type 0) (a : A)
    → ((e : Effects) → P e a e)
    → Sound P (pure a)
unfolding pure
Sound-pure P a holds desk b h =
    let same : a ≡ b = ground (arith, h) in
    subst (λ x. P (effects desk.calls) x (effects desk.calls)) same (holds (effects desk.calls))

pub Sound-if :
    {A : Type 0} (P : Effects → A → Effects → Type 0) (b : Bool) (m n : Task A)
    → (b ≡ true → Sound P m)
    → (b ≡ false → Sound P n)
    → Sound P (if b then m else n)
Sound-if P true m n there else_there = there refl
Sound-if P false m n there else_there = else_there refl
