-- ===== src/Auth/Controller/Registration.antt =====
-- What registration in src/auth/auth.controller.ts promises about usernames that are taken.
use mathlib.Core.Path.{subst}
use redis_api.Common.{
  ℕ, ◌≡◌, ◌≢◌, ◌∙◌, refl, sym, ap, Bool, true, false, List, [], ◌∷◌, ◌++◌, all, Answer, answer,
  error, ◌==◌, ◌⊎◌, inl, inr,
}
use redis_api.Text.{Str, codes}
use redis_api.Effect.{
  ret, http, Exception, rejected, Outcome, returned, thrown, run-bind, run-bind-returned, continue,
  ◌>>=◌,
}
use redis_api.Auth.{RegisterDto, getbit, bit}
use redis_api.Auth.Bloom.{bloom_key, positions, collect, gather, might_exist, add}
use redis_api.Auth.Bloom.Membership.{Marked, add-Marked, might_exist-Marked, add_all, add_all-keeps}
use redis_api.Auth.Keycloak.{taken_message}
use redis_api.Auth.Controller.{Identity, identity_register, register_new, after_filter, register}
use redis_api.Auth.World.{
  Systems, World, Fault, sound, unsent, unanswered, execute, meet, next_fault, perform, alone,
}

module _ (y : Systems) where
  -- Reading bits asks the identity server for nothing.
  read-provider :
      (f : Fault) (q : ℕ) (w : World y)
      → (meet y f (bit getbit bloom_key q) w).1.provider ≡ w.provider
  unfolding execute
  read-provider sound q w = refl
  read-provider unsent q w = refl
  read-provider unanswered q w = refl

  read_on :
      (ps found : List ℕ) (failed : Bool)
      → ((bits : List ℕ) (lost : Bool) (w : World y)
          → (alone y (gather getbit ps bits lost) w).1.provider ≡ w.provider)
      → (x : Answer ℕ × World y)
      → (alone y
          (collect (λ bits lost. gather getbit ps bits lost) found failed x.0)
          x.1).1.provider
        ≡ x.1.provider
  read_on ps found failed ih (answer b, w) = ih (found ++ b ∷ []) failed w
  read_on ps found failed ih (error, w) = ih found true w

  gather-provider :
      (ps found : List ℕ) (failed : Bool) (w : World y)
      → (alone y (gather getbit ps found failed) w).1.provider ≡ w.provider
  unfolding perform
  gather-provider [] found true w = refl
  gather-provider [] found false w = refl
  gather-provider (q ∷ ps) found failed w =
      read_on ps found failed (λ bits lost w'. gather-provider ps bits lost w') _
      ∙ read-provider (next_fault y w.faults) q _

  asked-provider :
      (x : Outcome (List ℕ) × World y)
      → (continue (perform y) (λ bits. ret (all (λ b. b == 1) bits)) x).1.provider ≡ x.1.provider
  asked-provider (returned xs, w) = refl
  asked-provider (thrown e, w) = refl

  might_exist-provider :
      (u : Str) (w : World y) → (alone y (might_exist u) w).1.provider ≡ w.provider
  unfolding might_exist
  might_exist-provider u w =
      rw
        (run-bind (perform y) (gather getbit (positions u) [] false)
          (λ bits. ret (all (λ b. b == 1) bits)) w)
        (asked-provider (alone y (gather getbit (positions u) [] false) w)
          ∙ gather-provider (positions u) [] false w)

  collected-throws :
      (ps found : List ℕ) (failed : Bool) (e : Exception)
      → ((bits : List ℕ) (lost : Bool) (w : World y)
          → (alone y (gather getbit ps bits lost) w).0 ≡ thrown e
          → e ≡ rejected)
      → (x : Answer ℕ × World y)
      → (alone y (collect (λ bits lost. gather getbit ps bits lost) found failed x.0) x.1).0
        ≡ thrown e
      → e ≡ rejected
  collected-throws ps found failed e ih (answer b, w) h = ih (found ++ b ∷ []) failed w h
  collected-throws ps found failed e ih (error, w) h = ih found true w h

  gather-throws :
      (ps found : List ℕ) (failed : Bool) (e : Exception) (w : World y)
      → (alone y (gather getbit ps found failed) w).0 ≡ thrown e
      → e ≡ rejected
  unfolding perform
  gather-throws [] found true e w h = cc
  gather-throws [] found false e w h = cc
  gather-throws (q ∷ ps) found failed e w h =
      collected-throws ps found failed e (λ bits lost w' h'. gather-throws ps bits lost e w' h')
        (perform y (bit getbit bloom_key q) w) h

  asked-throws :
      (e : Exception) (x : Outcome (List ℕ) × World y)
      → (x.0 ≡ thrown e → e ≡ rejected)
      → (continue (perform y) (λ bits. ret (all (λ b. b == 1) bits)) x).0 ≡ thrown e
      → e ≡ rejected
  asked-throws e (returned xs, w) f h = cc
  asked-throws e (thrown d, w) f h = f (cc h)

  might_exist-throws :
      (u : Str) (e : Exception) (w : World y)
      → (alone y (might_exist u) w).0 ≡ thrown e
      → e ≡ rejected
  unfolding might_exist
  might_exist-throws u e w h =
      asked-throws e (alone y (gather getbit (positions u) [] false) w)
        (gather-throws (positions u) [] false e w)
        (sym (
            ap (λ (o : Outcome Bool × World y). o.0)
              (run-bind (perform y) (gather getbit (positions u) [] false)
                (λ bits. ret (all (λ b. b == 1) bits)) w))
          ∙ h)

  -- The filter took the username for taken, and the request is answered 409; or a call to Redis was
  -- rejected, and so is the request.
  abbrev pub Refusal : Str → Outcome Bool → Outcome Str → Type 0
  Refusal username asked o =
      ((asked ≡ returned true) × (o ≡ thrown (http 409 (taken_message username))))
      ⊎ ((asked ≡ thrown rejected) × (o ≡ thrown rejected))

  -- The request was refused, and the identity server was asked for nothing.
  abbrev pub RefusedIn : Str → World y → Outcome Str × World y → Type 0
  RefusedIn username w (o, w') =
      Refusal username (alone y (might_exist username) w).0 o × (w'.provider ≡ w.provider)

  filtered :
      (identity : Identity) (dto : RegisterDto) (w : World y) (x : Outcome Bool × World y)
      → x.0 ≢ returned false
      → ((e : Exception) → x.0 ≡ thrown e → e ≡ rejected)
      → x.1.provider ≡ w.provider
      → let (o, w') = continue (perform y) (after_filter identity dto) x in
        Refusal dto.username x.0 o × (w'.provider ≡ w.provider)
  filtered identity dto w (returned true, w') ne only same = (inl (refl, refl), same)
  filtered identity dto w (returned false, w') ne only same = absurd (ne refl)
  filtered identity dto w (thrown x, w') ne only same =
      (inr (ap thrown (only x refl), ap thrown (only x refl)), same)

  -- A registration whose username has all its bits set is refused, also where the username is in fact
  -- new: by 409 where the filter answers, which it does with true, and by the error of Redis where a call
  -- of the filter was rejected; and Keycloak is never asked.
  pub register-Marked :
      (identity : Identity) (dto : RegisterDto) (w : World y)
      → Marked y dto.username w
      → RefusedIn dto.username w (alone y (register identity dto) w)
  unfolding register
  register-Marked identity dto w marked =
      rw (run-bind (perform y) (might_exist dto.username) (after_filter identity dto) w) (
        filtered identity dto w (alone y (might_exist dto.username) w)
          (might_exist-Marked y dto.username w marked) (λ e. might_exist-throws dto.username e w)
          (might_exist-provider dto.username w))

  added-Marked :
      (dto : RegisterDto) (w : World y) (m message : Str)
      → (alone y (add dto.username >>= λ u. ret message) w).0 ≡ returned m
      → Marked y dto.username (alone y (add dto.username >>= λ u. ret message) w).1
  added-Marked dto w m message e =
      let (u, done, whole, rest) =
        run-bind-returned (perform y) (add dto.username) (λ u. ret message) w m e in
      subst (Marked y dto.username) (sym (ap (λ (o : Outcome Str × World y). o.1) whole))
        (add-Marked y dto.username w done)

  new-Marked :
      (identity : Identity) (dto : RegisterDto) (w : World y) (m : Str)
      → (alone y (register_new identity dto) w).0 ≡ returned m
      → Marked y dto.username (alone y (register_new identity dto) w).1
  unfolding register_new
  new-Marked identity dto w m e =
      let message = codes "User registered successfully" in
      let (u, done, whole, rest) =
        run-bind-returned (perform y) (identity_register identity dto)
          (λ u. add dto.username >>= λ v. ret message) w m e in
      subst (Marked y dto.username) (sym (ap (λ (o : Outcome Str × World y). o.1) whole))
        (added-Marked dto (alone y (identity_register identity dto) w).1 m message rest)

  filter-Marked :
      (identity : Identity) (dto : RegisterDto) (likely : Bool) (w : World y) (m : Str)
      → (alone y (after_filter identity dto likely) w).0 ≡ returned m
      → Marked y dto.username (alone y (after_filter identity dto likely) w).1
  filter-Marked identity dto true w m e = cc
  filter-Marked identity dto false w m e = new-Marked identity dto w m e

  -- A registration that returns has set every bit of its username.
  registered-Marked :
      (identity : Identity) (dto : RegisterDto) (w : World y) (m : Str)
      → (alone y (register identity dto) w).0 ≡ returned m
      → Marked y dto.username (alone y (register identity dto) w).1
  unfolding register
  registered-Marked identity dto w m e =
      let (likely, done, whole, rest) =
        run-bind-returned (perform y) (might_exist dto.username) (after_filter identity dto) w m
          e in
      subst (Marked y dto.username) (sym (ap (λ (o : Outcome Str × World y). o.1) whole))
        (filter-Marked identity dto likely (alone y (might_exist dto.username) w).1 m rest)

  -- After a registration that returned, and whatever other usernames are added to the filter next, a
  -- second registration of the username is refused, and Keycloak is not asked.
  register_twice :
      (identity : Identity) (first second : RegisterDto) (others : List Str) (w : World y) (m : Str)
      → (alone y (register identity first) w).0 ≡ returned m
      → second.username ≡ first.username
      → let later = add_all y others (alone y (register identity first) w).1 in
        RefusedIn second.username later (alone y (register identity second) later)
  register_twice identity first second others w m e same =
      let w1 = (alone y (register identity first) w).1 in
      register-Marked identity second (add_all y others w1) (
        subst (λ u. Marked y u (add_all y others w1)) (sym same)
          (add_all-keeps y first.username others w1 (registered-Marked identity first w m e)))
