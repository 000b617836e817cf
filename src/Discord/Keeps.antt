-- ===== src/Discord/Keeps.antt =====
-- Rules for what a command leaves as it was.
use dookie.Base.{String, ◌≡◌, refl, ◌∙◌, Bool, true, false, arith, if◌then◌else◌}
use dookie.Base.Result.{Result, ok, err}
use dookie.Media.{BundleError, Net}
use dookie.Discord.{CommandError, World, Cmd, ◌>>=◌, lift, request}

-- Whatever it answers, the command runs no process.
pub record RunsNothing {A : Type 0} (m : Cmd A) : Type 0 where
  pub at : (w : World) → (m w).1.run ≡ w.run

pub nothing_lift : {A : Type 0} (r : Result CommandError A) → RunsNothing (lift r)
nothing_lift r = record { at = λ w. refl }

pub nothing_request :
    {A : Type 0} (display : BundleError → String) (m : Net A) → RunsNothing (request display m)
nothing_request display m = record { at = λ w. ground arith }

pub nothing_bind :
    {A B : Type 0} (m : Cmd A) (f : A → Cmd B)
    → RunsNothing m
    → ((a : A) → RunsNothing (f a))
    → RunsNothing (m >>= f)
unfolding ◌>>=◌
nothing_bind {A = A} {B = B} m f c e = record { at = λ w. cases (m w).0 (m w).1 ∙ c.at w }
  where
    cases :
        (r : Result CommandError A) (w : World) → (((λ (x : World). (r, x)) >>= f) w).1.run ≡ w.run
    cases (ok a) w = (e a).at w
    cases (err _) w = refl

pub nothing_if :
    {A : Type 0} (b : Bool) (m n : Cmd A)
    → RunsNothing m
    → RunsNothing n
    → RunsNothing (if b then m else n)
nothing_if true m n c e = c
nothing_if false m n c e = e

pub nothing_unless :
    {A : Type 0} (b : Bool) (m n : Cmd A)
    → b ≡ false
    → RunsNothing n
    → RunsNothing (if b then m else n)
nothing_unless true m n h e = absurd (ground arith)
nothing_unless false m n h e = e

pub ruleset nothing_rules = (nothing_lift, nothing_request, nothing_bind, nothing_if)
