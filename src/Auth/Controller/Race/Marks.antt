-- ===== src/Auth/Controller/Race/Marks.antt =====
-- A registration in src/auth/auth.controller.ts sets every bit of its username before it returns, also
-- where other requests run between its calls.
use redis_api.Common.{
  ℕ, ◌≡◌, refl, ◌++◌, ◌⊎◌, inl, inr, Bool, true, false, List, [], ◌∷◌, Answer, answer, error, All,
}
use redis_api.Text.{Str}
use redis_api.Effect.{ret, throw, call, ◌>>=◌}
use redis_api.Auth.{RegisterDto, setbit, bit, Method}
use redis_api.Auth.World.{Systems, World, next_fault, later_faults, perform}
use redis_api.Auth.Bloom.{bloom_key, positions, collect, gather, might_exist, add}
use redis_api.Auth.Bloom.Membership.{IsOn, Marked, set-SetDone}
use redis_api.Auth.Controller.{Identity, identity_register, register_new, after_filter, register}

module _ (y : Systems) (username : Str) where
  -- The method returns only once all bits of the username are set, where those of `on` are.
  abbrev pub Marks : {A : Type 0} → Method A → List ℕ → Type 0
  Marks (ret a) on = (w : World y) → All (IsOn y w) on → Marked y username w
  Marks (throw e) on = Unit
  Marks (call c k) on =
      (w : World y)
      → Marks (k (perform y c w).0) on
        ⊎ (p : ℕ) × IsOn y (perform y c w).1 p × Marks (k (perform y c w).0) (p ∷ on)

  bind-Marks :
      {A B : Type 0} (m : Method A) (f : A → Method B) (on : List ℕ)
      → Marks m on
      → ((a : A) (known : List ℕ)
          → ((w : World y) → All (IsOn y w) known → Marked y username w)
          → Marks (f a) known)
      → Marks (m >>= f) on
  bind-Marks (ret a) f on h g = g a on h
  bind-Marks (throw e) f on h g = tt
  bind-Marks (call c k) f on h g = λ w. elim (h w) [
    | inl same ↦ inl (bind-Marks (k (perform y c w).0) f on same g)
    | inr (p, set, more) ↦ inr (p, set, bind-Marks (k (perform y c w).0) f (p ∷ on) more g)
  ]

  later-Marks :
      {A B : Type 0} (m : Method A) (f : A → Method B) (on : List ℕ)
      → ((a : A) → Marks (f a) on)
      → Marks (m >>= f) on
  later-Marks (ret a) f on h = h a
  later-Marks (throw e) f on h = tt
  later-Marks (call c k) f on h = λ w. inl (later-Marks (k (perform y c w).0) f on h)

  -- On after a SETBIT.
  set-Marks :
      (q : ℕ) (ps found : List ℕ) (failed : Bool) (on : List ℕ)
      → ((bits : List ℕ) → Marks (gather (setbit 1) ps bits failed) (q ∷ on))
      → Marks (gather (setbit 1) ps found true) on
      → (x : Answer ℕ × World y) → ((b : ℕ) → x.0 ≡ answer b → IsOn y x.1 q)
      → let rest = collect (λ bits lost. gather (setbit 1) ps bits lost) found failed x.0 in
        Marks rest on ⊎ (p : ℕ) × IsOn y x.1 p × Marks rest (p ∷ on)
  set-Marks q ps found failed on done lost (answer b, w) h =
      inr (q, h b refl, done (found ++ b ∷ []))
  set-Marks q ps found failed on done lost (error, w) h = inl lost

  gather-Marks :
      (ps found : List ℕ) (failed : Bool) (on : List ℕ)
      → (failed ≡ false
          → (w : World y) → All (IsOn y w) on
          → All (IsOn y w) ps
          → Marked y username w)
      → Marks (gather (setbit 1) ps found failed) on
  unfolding perform
  gather-Marks [] found true on h = tt
  gather-Marks [] found false on h = λ w set. h refl w set tt
  gather-Marks (q ∷ ps) found failed on h = λ w.
      set-Marks q ps found failed on
        (λ bits.
          gather-Marks ps bits failed (q ∷ on) (λ good v set rest. h good v set.1 (set.0, rest)))
        (gather-Marks ps found true on (λ bad. cc)) (perform y (bit (setbit 1) bloom_key q) w)
        (set-SetDone y (next_fault y w.faults) q (record w { faults = later_faults y w.faults })).1

  add-Marks : Marks (add username) []
  unfolding add
  add-Marks =
      bind-Marks (gather (setbit 1) (positions username) [] false) _ []
        (gather-Marks (positions username) [] false [] (λ good w none set. set)) (λ bits known h. h)

  after_filter-Marks :
      (identity : Identity) (dto : RegisterDto) (likely : Bool)
      → dto.username ≡ username
      → Marks (after_filter identity dto likely) []
  unfolding register_new
  after_filter-Marks identity dto true same = tt
  after_filter-Marks identity dto false same =
      later-Marks (identity_register identity dto) _ []
        (λ u. bind-Marks (add dto.username) _ [] (rw same add-Marks) (λ v known h. h))

  pub register-Marks :
      (identity : Identity) (dto : RegisterDto)
      → dto.username ≡ username
      → Marks (register identity dto) []
  unfolding register
  register-Marks identity dto same =
      later-Marks (might_exist dto.username) (after_filter identity dto) []
        (λ likely. after_filter-Marks identity dto likely same)
