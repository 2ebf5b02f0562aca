-- ===== src/Auth/Bloom/Membership.antt =====
-- The Bloom filter of src/auth/bloom-filter.service.ts has no false negatives.
use mathlib.Core.Path.{subst}
use redis_api.Common.{
  sym, ap, ℕ, ◌≡◌, ◌≢◌, ◌∙◌, refl, ◌++◌, Bool, true, false, List, [], ◌∷◌, Answer, answer, error,
  All, all, arith, ◌==◌, ==_iff,
}
use redis_api.Text.{Str, ===_refl}
use redis_api.Effect.{Prog, Outcome, returned, thrown, run-bind, continue}
use redis_api.Auth.{getbit, setbit, bit}
use redis_api.Auth.World.{
  Systems, World, Fault, sound, unsent, unanswered, execute, meet, next_fault, perform, alone,
}
use redis_api.Auth.Bloom.{bloom_key, positions, collect, gather, might_exist, add}

module _ (y : Systems) where
  -- The bit is set.
  abbrev pub IsOn : World y → ℕ → Type 0
  IsOn w p = y.bits.bit_at bloom_key p w.bits ≡ 1

  abbrev pub Marked : Str → World y → Type 0
  Marked username w = All (IsOn w) (positions username)

  -- No bit is ever cleared.
  pub meet-keeps :
      (f : Fault) (q p : ℕ) (w : World y)
      → IsOn w p
      → IsOn (meet y f (bit (setbit 1) bloom_key q) w).1 p
  unfolding execute
  meet-keeps sound q p w h =
      y.bits.bit_at-set_bit bloom_key q 1 bloom_key p w.bits ∙ ground (arith, h)
  meet-keeps unsent q p w h = h
  meet-keeps unanswered q p w h =
      y.bits.bit_at-set_bit bloom_key q 1 bloom_key p w.bits ∙ ground (arith, h)

  pub read-keeps : (f : Fault) (q : ℕ) (w : World y) → ((meet y f (bit getbit bloom_key q) w).1 ≡ w)
  unfolding execute
  read-keeps sound q w = refl
  read-keeps unsent q w = refl
  read-keeps unanswered q w = refl

  -- What is known of the world after a SETBIT, and of its answer.
  abbrev pub SetDone : ℕ → (ℕ → Type 0) → Answer ℕ × World y → Type 0
  SetDone q On (a, w) = ((p : ℕ) → On p → IsOn w p) × ((b : ℕ) → a ≡ answer b → IsOn w q)

  pub set-SetDone :
      (f : Fault) (q : ℕ) (w : World y)
      → SetDone q (IsOn w) (meet y f (bit (setbit 1) bloom_key q) w)
  unfolding execute
  set-SetDone sound q w = (
    λ p h. meet-keeps sound q p w h,
    λ b e.
        y.bits.bit_at-set_bit bloom_key q 1 bloom_key q w.bits
        ∙ rw (===_refl bloom_key, (==_iff q q).1 refl) refl,
  )
  set-SetDone unsent q w = (λ p h. h, λ b e. cc)
  set-SetDone unanswered q w = (λ p h. meet-keeps unanswered q p w h, λ b e. cc)

  -- After all the SETBITs.
  abbrev Sent : List ℕ → Bool → (ℕ → Type 0) → Outcome (List ℕ) × World y → Type 0
  Sent ps failed On (o, w) =
      ((p : ℕ) → On p → IsOn w p)
      × ((xs : List ℕ) → o ≡ returned xs → (failed ≡ false) × All (IsOn w) ps)

  gather-Sent :
      (ps found : List ℕ) (failed : Bool) (w : World y)
      → Sent ps failed (IsOn w) (alone y (gather (setbit 1) ps found failed) w)
  unfolding perform
  gather-Sent [] found true w = (λ p h. h, λ xs e. cc)
  gather-Sent [] found false w = (λ p h. h, λ xs e. (refl, tt))
  gather-Sent (q ∷ ps) found failed w =
      onward q (λ bits lost w'. gather-Sent ps bits lost w') (IsOn w) _
        (set-SetDone (next_fault y w.faults) q _)
    where
      onward :
          (q : ℕ)
          → ((bits : List ℕ) (lost : Bool) (w' : World y)
              → Sent ps lost (IsOn w') (alone y (gather (setbit 1) ps bits lost) w'))
          → (On : ℕ → Type 0) (x : Answer ℕ × World y) → SetDone q On x
          → Sent
              (q ∷ ps)
              failed
              On
              (alone y (collect (λ bits lost. gather (setbit 1) ps bits lost) found failed x.0) x.1)
      onward q ih On (answer b, w') h =
          let s = ih (found ++ b ∷ []) failed w' in
          (λ p on. s.0 p (h.0 p on), λ xs e. ((s.1 xs e).0, (s.0 q (h.1 b refl), (s.1 xs e).1)))
      onward q ih On (error, w') h =
          let s = ih found true w' in (λ p on. s.0 p (h.0 p on), λ xs e. cc ((s.1 xs e).0))

  -- What `add` makes of the answers.
  added :
      (u : Str) (w : World y)
      → alone y (add u) w
        ≡ continue
            (perform y)
            (λ bits. Prog.ret tt)
            (alone y (gather (setbit 1) (positions u) [] false) w)
  unfolding add
  added u w =
      run-bind (perform y) (gather (setbit 1) (positions u) [] false) (λ bits. Prog.ret tt) w

  finished :
      (x : Outcome (List ℕ) × World y)
      → ((continue (perform y) (λ bits. Prog.ret tt) x).1 ≡ x.1)
        × ((continue (perform y) (λ bits. Prog.ret tt) x).0 ≡ returned tt
            → (xs : List ℕ) × (x.0 ≡ returned xs))
  finished (returned xs, w) = (refl, λ e. (xs, refl))
  finished (thrown e, w) = (refl, λ h. cc)

  -- A username is marked once its `add` has returned.
  pub add-Marked :
      (u : Str) (w : World y) → (alone y (add u) w).0 ≡ returned tt → Marked u (alone y (add u) w).1
  add-Marked u w e =
      let x = alone y (gather (setbit 1) (positions u) [] false) w in
      let (xs, r) =
        (finished x).1 (ap (λ (o : Outcome (Unit {0}) × World y). o.0) (sym (added u w)) ∙ e) in
      subst (Marked u)
        (sym (ap (λ (o : Outcome (Unit {0}) × World y). o.1) (added u w) ∙ (finished x).0))
        ((gather-Sent (positions u) [] false w).1 xs r).1

  -- No `add` unmarks another username, whether it returns or throws.
  add-keeps :
      (u : Str) (ps : List ℕ) (w : World y) → All (IsOn w) ps → All (IsOn (alone y (add u) w).1) ps
  add-keeps u [] w h = tt
  add-keeps u (p ∷ ps) w h =
      let x = alone y (gather (setbit 1) (positions u) [] false) w in
      (
        subst (λ w'. IsOn w' p)
            (sym (ap (λ (o : Outcome (Unit {0}) × World y). o.1) (added u w) ∙ (finished x).0))
            ((gather-Sent (positions u) [] false w).0 p h.0),
        add-keeps u ps w h.1,
      )

  all_ones : (xs : List ℕ) → all (λ b. b == 1) xs ≡ true → all (λ b. b == 1) (xs ++ 1 ∷ []) ≡ true
  all_ones [] h = refl
  all_ones (x ∷ xs) h = ground (arith, all_ones xs)

  -- An answer of GETBIT at a bit that is set.
  read-one :
      (f : Fault) (q b : ℕ) (w : World y)
      → IsOn w q
      → (meet y f (bit getbit bloom_key q) w).0 ≡ answer b
      → b ≡ 1
  unfolding execute
  read-one sound q b w h e = ground (arith, y.bits.get_bit_lem bloom_key q w.bits)
  read-one unsent q b w h e = cc
  read-one unanswered q b w h e = cc

  abbrev ReadOnes : Outcome (List ℕ) → Type 0
  ReadOnes o = (xs : List ℕ) → o ≡ returned xs → all (λ b. b == 1) xs ≡ true

  read_on :
      (ps found : List ℕ) (failed : Bool)
      → all (λ b. b == 1) found ≡ true
      → ((bits : List ℕ) (lost : Bool) (w : World y)
          → All (IsOn w) ps
          → all (λ b. b == 1) bits ≡ true
          → ReadOnes (alone y (gather getbit ps bits lost) w).0)
      → (x : Answer ℕ × World y) → All (IsOn x.1) ps
      → ((b : ℕ) → x.0 ≡ answer b → b ≡ 1)
      → ReadOnes
          (alone y (collect (λ bits lost. gather getbit ps bits lost) found failed x.0) x.1).0
  read_on ps found failed h ih (answer b, w) on one =
      ih (found ++ b ∷ []) failed w on (rw (one b refl) (all_ones found h))
  read_on ps found failed h ih (error, w) on one = ih found true w on h

  gather-ReadOnes :
      (ps found : List ℕ) (failed : Bool) (w : World y)
      → All (IsOn w) ps
      → all (λ b. b == 1) found ≡ true
      → ReadOnes (alone y (gather getbit ps found failed) w).0
  unfolding perform
  gather-ReadOnes [] found true w on h = λ xs e. cc
  gather-ReadOnes [] found false w on h = λ xs e. cc
  gather-ReadOnes (q ∷ ps) found failed w (here, on) h =
      read_on ps found failed h (λ bits lost w'. gather-ReadOnes ps bits lost w') _
        (rw (read-keeps (next_fault y w.faults) q _) on)
        (λ b e. read-one (next_fault y w.faults) q b _ here e)

  asked :
      (x : Outcome (List ℕ) × World y)
      → ReadOnes x.0
      → (continue (perform y) (λ bits. Prog.ret (all (λ b. b == 1) bits)) x).0 ≢ returned false
  asked (returned xs, w) h e = cc (h xs refl)
  asked (thrown x, w) h e = cc

  -- The filter does not deny a marked username: the answer is true, or the call throws.
  pub might_exist-Marked :
      (u : Str) (w : World y) → Marked u w → (alone y (might_exist u) w).0 ≢ returned false
  unfolding might_exist
  might_exist-Marked u w marked =
      rw
        (run-bind (perform y) (gather getbit (positions u) [] false)
          (λ bits. Prog.ret (all (λ b. b == 1) bits)) w)
        (asked (alone y (gather getbit (positions u) [] false) w)
          (gather-ReadOnes (positions u) [] false w marked refl))

  pub add_all : List Str → World y → World y
  add_all [] w = w
  add_all (v ∷ vs) w = add_all vs (alone y (add v) w).1

  pub add_all-keeps : (u : Str) (vs : List Str) (w : World y) → Marked u w → Marked u (add_all vs w)
  unfolding add_all
  add_all-keeps u [] w h = h
  add_all-keeps u (v ∷ vs) w h =
      add_all-keeps u vs (alone y (add v) w).1 (add-keeps v (positions u) w h)

  -- Once `add` of a username has returned, `mightExist` never answers false for it, whatever other
  -- usernames are added in between, and whatever calls fail.
  pub no_false_negative :
      (u : Str) (others : List Str) (w : World y)
      → (alone y (add u) w).0 ≡ returned tt
      → (alone y (might_exist u) (add_all others (alone y (add u) w).1)).0 ≢ returned false
  no_false_negative u others w e =
      might_exist-Marked u (add_all others (alone y (add u) w).1)
        (add_all-keeps u others (alone y (add u) w).1 (add-Marked u w e))
