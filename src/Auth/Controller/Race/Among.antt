-- ===== src/Auth/Controller/Race/Among.antt =====
-- One request to register among the others.
use redis_api.Common.{◌++◌, List, [], ◌∷◌, All, All-map}
use redis_api.Auth.Controller.Race.{Request}

-- All but one of the requests.
pub data AllButOne (P : Request → Type 0) : List Request → Type 0 where
  this : (q : Request) (qs : List Request) → All P qs → AllButOne P (q ∷ qs)
  later : (q : Request) (qs : List Request) → P q → AllButOne P qs → AllButOne P (q ∷ qs)

-- One request changes.
module _ (P Q : Request → Type 0) where
  pub All-replace :
      (before : List Request) (q r : Request) (after : List Request)
      → ((x : Request) → P x → Q x)
      → (P q → Q r)
      → All P (before ++ (q ∷ after))
      → All Q (before ++ (r ∷ after))
  All-replace [] q r after f p h = (p h.0, All-map P Q after f h.1)
  All-replace (b ∷ before) q r after f p h = (f b h.0, All-replace before q r after f p h.1)

module _ (P : Request → Type 0) where
  pub All-at :
      (before : List Request) (q : Request) (after : List Request)
      → All P (before ++ (q ∷ after))
      → P q
  All-at [] q after h = h.0
  All-at (b ∷ before) q after h = All-at before q after h.1

  pub All-spoil :
      (before : List Request) (q r : Request) (after : List Request)
      → All P (before ++ (q ∷ after))
      → AllButOne P (before ++ (r ∷ after))
  All-spoil [] q r after h = this r after h.1
  All-spoil (b ∷ before) q r after h =
      later b (before ++ (r ∷ after)) h.0 (All-spoil before q r after h.1)

  pub AllButOne-replace :
      (before : List Request) (q r : Request) (after : List Request)
      → (P q → P r)
      → AllButOne P (before ++ (q ∷ after))
      → AllButOne P (before ++ (r ∷ after))
  AllButOne-replace [] q r after p (this _ _ h) = this r after h
  AllButOne-replace [] q r after p (later _ _ h o) = later r after (p h) o
  AllButOne-replace (b ∷ before) q r after p (this _ _ h) =
      this b (before ++ (r ∷ after)) (All-replace P P before q r after (λ x o. o) p h)
  AllButOne-replace (b ∷ before) q r after p (later _ _ h o) =
      later b (before ++ (r ∷ after)) h (AllButOne-replace before q r after p o)
