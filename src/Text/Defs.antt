-- ===== src/Text/Defs.antt =====
-- Texts and their equality.
use Prim.Native.Char.{code}
use Prim.Native.String.{String}
use redis_api.Common.{ℕ, ◌≡◌, ◌≢◌, ◌↔◌, refl, Bool, true, false, ◌&&◌, List, [], ◌∷◌, arith, ◌==◌}

abbrev pub Str : Type 0
Str = List ℕ

-- A literal of the source; those that occur are ASCII.
abbrev pub codes : String → Str
codes String.[] = []
codes (String.◌∷◌ c s) = code c ∷ codes s

infix 50 ◌===◌
unfoldable pub ◌===◌ : Str → Str → Bool
[] === [] = true
[] === (b ∷ t) = false
(a ∷ s) === [] = false
(a ∷ s) === (b ∷ t) = a == b && s === t

pub ===_iff : (s t : Str) → ((s === t) ≡ true) ↔ (s ≡ t)
unfolding ◌===◌
===_iff [] [] = (λ _. refl, λ _. refl)
===_iff [] (b ∷ t) = (λ h. cc, λ h. cc)
===_iff (a ∷ s) [] = (λ h. cc, λ h. cc)
===_iff (a ∷ s) (b ∷ t) = let ih = ===_iff s t in (λ h. ground (arith, ih), λ e. ground (arith, ih))

pub ===_refl : (s : Str) → (s === s) ≡ true
===_refl s = (===_iff s s).1 refl

pub ===_ne : (s t : Str) → s ≢ t → (s === t) ≡ false
===_ne s t h = ground (arith, ===_iff s t)

pub ne_of_=== : (s t : Str) → (s === t) ≡ false → s ≢ t
ne_of_=== s t h e = cc ((===_iff s t).1 e)
