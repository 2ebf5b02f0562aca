-- ===== src/Auth/Controller/Filter.antt =====
-- When registration in src/auth/auth.controller.ts writes to the Bloom filter.
use redis_api.Common.{◌≡◌, ◌≢◌, ◌∙◌, refl, sym, ap, ◌⊎◌, inl, inr, Bool, true, false}
use redis_api.Text.{Str, codes}
use redis_api.Effect.{ret, throw, call, Outcome, returned, thrown, run-bind, continue, ◌>>=◌}
use redis_api.Auth.{
  RegisterDto, getbit, setbit, Call, bit, fetch, now, read_token, write_token, Method,
}
use redis_api.Auth.World.{
  Systems, World, Fault, sound, unsent, unanswered, execute, meet, next_fault, perform, alone,
}
use redis_api.Auth.Bloom.{might_exist, add}
use redis_api.Auth.Controller.{Identity, identity_register, register_new, after_filter, register}
use redis_api.Auth.Calls.{Only, Permits, might_exist-Only, identity_register-Only}

-- A call that writes no bit.
abbrev pub IsRead : Call → Type 0
IsRead (bit (setbit v) k i) = ⊥
IsRead _ = Unit

pub reads_permitted : Permits IsRead
reads_permitted = record {
  posting = λ url bearer body. tt;
  getting = λ url bearer. tt;
  clock = tt;
  reading = tt;
  writing = λ t. tt;
}

-- The rest of a registration, on from the identity service.
abbrev pub announce : RegisterDto → Unit {0} → Method Str
announce dto u = add dto.username >>= λ v. ret (codes "User registered successfully")

module _ (y : Systems) where
  execute-bits : (c : Call) (w : World y) → IsRead c → (execute y c w).1.bits ≡ w.bits
  unfolding execute
  execute-bits (bit getbit k i) w h = refl
  execute-bits (bit (setbit v) k i) w h = absurd h
  execute-bits (fetch q) w h = refl
  execute-bits now w h = refl
  execute-bits read_token w h = refl
  execute-bits (write_token t) w h = refl

  meet-bits : (f : Fault) (c : Call) (w : World y) → IsRead c → (meet y f c w).1.bits ≡ w.bits
  meet-bits sound c w h = execute-bits c w h
  meet-bits unsent c w h = refl
  meet-bits unanswered c w h = execute-bits c w h

  perform-bits : (c : Call) (w : World y) → IsRead c → (perform y c w).1.bits ≡ w.bits
  unfolding perform
  perform-bits (bit command k i) w h = meet-bits (next_fault y w.faults) (bit command k i) _ h
  perform-bits (fetch q) w h = meet-bits (next_fault y w.faults) (fetch q) _ h
  perform-bits now w h = execute-bits now w h
  perform-bits read_token w h = execute-bits read_token w h
  perform-bits (write_token t) w h = execute-bits (write_token t) w h

  pub bits_kept :
      {A : Type 0} (m : Method A) (w : World y) → Only IsRead m → (alone y m w).1.bits ≡ w.bits
  bits_kept (ret a) w h = refl
  bits_kept (throw e) w h = refl
  bits_kept (call c k) w (h, later) =
      bits_kept (k (perform y c w).0) (perform y c w).1 (later (perform y c w).0)
      ∙ perform-bits c w h

  -- After the filter was asked, with `asked`: the bits are as before, and it did not answer that the
  -- username is new, or the identity service did not return from the registration of the user; or it
  -- answered so, and the service returned, and the bits are those that `add` makes of the ones before.
  abbrev pub FilteredAfter :
      Identity → RegisterDto → World y → Outcome Bool × World y → World y → Type 0
  FilteredAfter identity dto w asked w' =
      ((w'.bits ≡ w.bits)
        × ((asked.0 ≢ returned false)
            ⊎ ((alone y (identity_register identity dto) asked.1).0 ≢ returned tt)))
      ⊎ (asked.0 ≡ returned false)
        × ((alone y (identity_register identity dto) asked.1).0 ≡ returned tt)
        × ((alone y (identity_register identity dto) asked.1).1.bits ≡ w.bits)
        × (w'.bits
            ≡ (alone y (add dto.username)
                (alone y (identity_register identity dto) asked.1).1).1.bits)

  abbrev pub Filtered : Identity → RegisterDto → World y → Outcome Str × World y → Type 0
  Filtered identity dto w x =
      FilteredAfter identity dto w (alone y (might_exist dto.username) w) x.1

  -- The last part of a registration, after `add`.
  told :
      (message : Str) (x : Outcome (Unit {0}) × World y)
      → (continue (perform y) (λ u. ret message) x).1 ≡ x.1
  told message (returned u, w) = refl
  told message (thrown e, w) = refl

  added-bits :
      (username message : Str) (w : World y)
      → (alone y (add username >>= λ u. ret message) w).1 ≡ (alone y (add username) w).1
  added-bits username message w =
      rw (run-bind (perform y) (add username) (λ u. ret message) w)
        (told message (alone y (add username) w))

  identified :
      (identity : Identity) (dto : RegisterDto) (w v : World y) (x : Outcome (Unit {0}) × World y)
      → v.bits ≡ w.bits
      → alone y (identity_register identity dto) v ≡ x
      → x.1.bits ≡ v.bits
      → FilteredAfter identity dto w (returned false, v) (continue (perform y) (announce dto) x).1
  identified identity dto w v (thrown e, v') same run kept =
      inl (kept ∙ same, inr (λ h. cc (ap (λ (o : Outcome (Unit {0}) × World y). o.0) run)))
  identified identity dto w v (returned u, v') same run kept = inr (
    refl,
    ap (λ (o : Outcome (Unit {0}) × World y). o.0) run,
    ap (λ (o : Outcome (Unit {0}) × World y). o.1.bits) run ∙ kept ∙ same,
    ap (λ (z : World y). z.bits) (added-bits dto.username (codes "User registered successfully") v')
        ∙ ap (λ (o : Outcome (Unit {0}) × World y). (alone y (add dto.username) o.1).1.bits)
            (sym run),
  )

  new-Filtered :
      (identity : Identity) (dto : RegisterDto) (w v : World y)
      → v.bits ≡ w.bits
      → FilteredAfter identity dto w (returned false, v) (alone y (register_new identity dto) v).1
  unfolding register_new
  new-Filtered identity dto w v same =
      rw (run-bind (perform y) (identity_register identity dto) (announce dto) v) (
        identified identity dto w v (alone y (identity_register identity dto) v) same refl (
          bits_kept (identity_register identity dto) v
            (identity_register-Only IsRead reads_permitted identity dto)))

  after_filter-Filtered :
      (identity : Identity) (dto : RegisterDto) (w : World y) (x : Outcome Bool × World y)
      → x.1.bits ≡ w.bits
      → FilteredAfter identity dto w x (continue (perform y) (after_filter identity dto) x).1
  after_filter-Filtered identity dto w (returned true, v) same = inl (same, inl (λ e. cc))
  after_filter-Filtered identity dto w (returned false, v) same = new-Filtered identity dto w v same
  after_filter-Filtered identity dto w (thrown e, v) same = inl (same, inl (λ h. cc))

  -- A registration, whatever fails: where the filter answers that the username is new, and the identity
  -- service then returns from registering the user, the bits are those that `add` of the username makes of
  -- the ones before; in every other case no bit has changed.
  pub register-Filtered :
      (identity : Identity) (dto : RegisterDto) (w : World y)
      → Filtered identity dto w (alone y (register identity dto) w)
  unfolding register
  register-Filtered identity dto w =
      rw (run-bind (perform y) (might_exist dto.username) (after_filter identity dto) w) (
        after_filter-Filtered identity dto w (alone y (might_exist dto.username) w) (
          bits_kept (might_exist dto.username) w
            (might_exist-Only IsRead (λ key offset. tt) dto.username)))
