-- ===== src/Auth/Calls.antt =====
-- Methods behind src/auth/auth.controller.ts all of whose calls are of one kind.
use redis_api.Common.{
  ℕ, ltb, ◌+◌, Bool, true, false, Option, none, some, List, [], ◌∷◌, ◌++◌, all, Answer, answer,
  error, ◌==◌, if◌then◌else◌,
}
use redis_api.Text.{Str, codes}
use redis_api.Effect.{ret, throw, call, settle, ◌>>=◌}
use redis_api.Auth.{
  RegisterDto, Body, BitCommand, getbit, setbit, Call, bit, fetch, now, read_token, write_token,
  AdminToken, ok, Reply, Method,
}
use redis_api.Auth.Bloom.{bloom_key, positions, collect, gather, might_exist, add}
use redis_api.Auth.Keycloak.{
  Config, post, get, renew_token, cached_or, get_admin_token, user_id_or_throw, create_user,
  assign_role, register_user, last_segment, or_empty,
}
use redis_api.Auth.Controller.{
  Identity, keycloak, entra_id, identity_register, register_new, after_filter, register,
}

-- All calls of the method, whatever they are answered, are of the kind `P`.
abbrev pub Only : (Call → Type 0) → {A : Type 0} → Method A → Type 0
Only P (ret a) = Unit
Only P (throw e) = Unit
Only P (call c k) = P c × ((r : Answer (Reply c)) → Only P (k r))

-- The kinds of calls that the identity services make.
pub record Permits (P : Call → Type 0) : Type 0 where
  pub posting : (url : Str) (bearer : Option Str) (body : Body) → P (fetch (post url bearer body))
  pub getting : (url : Str) (bearer : Option Str) → P (fetch (get url bearer))
  pub clock : P now
  pub reading : P read_token
  pub writing : (t : AdminToken) → P (write_token t)

module _ (P : Call → Type 0) where
  pub bind-Only :
      {A B : Type 0} (m : Method A) (f : A → Method B)
      → Only P m
      → ((a : A) → Only P (f a))
      → Only P (m >>= f)
  bind-Only (ret a) f h g = g a
  bind-Only (throw e) f h g = tt
  bind-Only (call c k) f (h, later) g = (h, λ r. bind-Only (k r) f (later r) g)

  settle-Only :
      {A B : Type 0} (r : Answer A) (f : A → Method B)
      → ((a : A) → Only P (f a))
      → Only P (settle r >>= f)
  settle-Only (answer a) f g = g a
  settle-Only error f g = tt

  if-Only :
      {A : Type 0} (b : Bool) (m n : Method A) → Only P m → Only P n → Only P (if b then m else n)
  if-Only true m n h g = h
  if-Only false m n h g = g

  -- The commands on the bits of the filter.
  collect-Only :
      (others : List ℕ → Bool → Method (List ℕ)) (found : List ℕ) (failed : Bool)
      → ((bits : List ℕ) (lost : Bool) → Only P (others bits lost))
      → (r : Answer ℕ) → Only P (collect others found failed r)
  collect-Only others found failed h (answer b) = h (found ++ b ∷ []) failed
  collect-Only others found failed h error = h found true

  gather-Only :
      (command : BitCommand)
      → ((key : Str) (offset : ℕ) → P (bit command key offset))
      → (ps found : List ℕ) (failed : Bool) → Only P (gather command ps found failed)
  gather-Only command h [] found true = tt
  gather-Only command h [] found false = tt
  gather-Only command h (p ∷ ps) found failed = (
    h bloom_key p,
    collect-Only (λ bits lost. gather command ps bits lost) found failed
        (λ bits lost. gather-Only command h ps bits lost),
  )

  pub might_exist-Only :
      ((key : Str) (offset : ℕ) → P (bit getbit key offset)) → (u : Str) → Only P (might_exist u)
  unfolding might_exist
  might_exist-Only h u =
      bind-Only (gather getbit (positions u) [] false) (λ bits. ret (all (λ b. b == 1) bits))
        (gather-Only getbit h (positions u) [] false) (λ bits. tt)

  pub add-Only :
      ((key : Str) (offset : ℕ) → P (bit (setbit 1) key offset)) → (u : Str) → Only P (add u)
  unfolding add
  add-Only h u =
      bind-Only (gather (setbit 1) (positions u) [] false) (λ bits. ret tt)
        (gather-Only (setbit 1) h (positions u) [] false) (λ bits. tt)

  -- The calls of the Keycloak service.
  module _ (p : Permits P) (config : Config) where
    renew_token-Only : (time : ℕ) → Only P (renew_token config time)
    unfolding renew_token
    renew_token-Only time = (
      p.posting _ _ _,
      λ r. settle-Only r _ (λ res.
          if-Only (ok res) _ _
            (settle-Only res.json _ (λ body. (p.writing _, λ a. settle-Only a _ (λ u. tt)))) tt),
    )

    cached_or-Only :
        (time : ℕ) (cached : Option AdminToken)
        → Only P (cached_or config time cached (renew_token config time))
    cached_or-Only time none = renew_token-Only time
    cached_or-Only time (some t) =
        if-Only (ltb (time + 10_000) t.expires_at) (ret t.value) _ tt (renew_token-Only time)

    pub get_admin_token-Only : Only P (get_admin_token config)
    unfolding get_admin_token
    get_admin_token-Only = (
      p.clock,
      λ r.
          settle-Only r _
            (λ time. (p.reading, λ a. settle-Only a _ (λ cached. cached_or-Only time cached))),
    )

    user_id_or_throw-Only : (s : Str) → Only P (user_id_or_throw config s)
    user_id_or_throw-Only [] = tt
    user_id_or_throw-Only (c ∷ s) = tt

    create_user-Only : (dto : RegisterDto) (token : Str) → Only P (create_user config dto token)
    unfolding create_user
    create_user-Only dto token = (
      p.posting _ _ _,
      λ r. settle-Only r _ (λ res. if-Only (res.status == 409) _ _ tt (
          if-Only (ok res) _ _ (user_id_or_throw-Only (last_segment [] (or_empty res.location)))
            tt)),
    )

    assign_role-Only : (user_id role token : Str) → Only P (assign_role config user_id role token)
    unfolding assign_role
    assign_role-Only user_id role token = (
      p.getting _ _,
      λ r. settle-Only r _ (λ found.
          if-Only (ok found) _ _
            (settle-Only found.json _ (λ body. (
              p.posting _ _ _,
              λ a. settle-Only a _ (λ assigned. if-Only (ok assigned) _ _ tt tt),
            )))
            tt),
    )

  pub identity_register-Only :
      Permits P
      → (identity : Identity) (dto : RegisterDto) → Only P (identity_register identity dto)
  unfolding register_user
  identity_register-Only p (keycloak config) dto =
      bind-Only (get_admin_token config) _ (get_admin_token-Only p config) (λ token.
        bind-Only (create_user config dto token) _ (create_user-Only p config dto token)
          (λ user_id. assign_role-Only p config user_id (codes "product:read") token))
  identity_register-Only p entra_id dto = tt

  after_filter-Only :
      Permits P
      → ((key : Str) (offset : ℕ) → P (bit (setbit 1) key offset))
      → (identity : Identity) (dto : RegisterDto) (likely : Bool)
      → Only P (after_filter identity dto likely)
  unfolding register_new
  after_filter-Only p sets identity dto true = tt
  after_filter-Only p sets identity dto false =
      bind-Only (identity_register identity dto) _ (identity_register-Only p identity dto)
        (λ u. bind-Only (add dto.username) _ (add-Only sets dto.username) (λ v. tt))

  pub register-Only :
      Permits P
      → ((key : Str) (offset : ℕ) → P (bit getbit key offset))
      → ((key : Str) (offset : ℕ) → P (bit (setbit 1) key offset))
      → (identity : Identity) (dto : RegisterDto) → Only P (register identity dto)
  unfolding register
  register-Only p reads sets identity dto =
      bind-Only (might_exist dto.username) _ (might_exist-Only reads dto.username)
        (λ likely. after_filter-Only p sets identity dto likely)
