-- ===== src/Auth/Controller/Race/Known.antt =====
-- Registrations in src/auth/auth.controller.ts that run at the same time leave every username that they
-- registered in the filter.
use mathlib.Core.Path.{subst}
use redis_api.Common.{
  ℕ, ◌≡◌, ◌∙◌, sym, refl, ◌++◌, inl, inr, List, [], ◌∷◌, All, All-map, Answer, arith,
}
use redis_api.Text.{Str}
use redis_api.Effect.{ret, throw, call}
use redis_api.Auth.{
  RegisterDto, getbit, setbit, Call, bit, fetch, now, read_token, write_token, Reply, Method,
}
use redis_api.Auth.World.{
  Systems, World, Fault, sound, unsent, unanswered, execute, meet, next_fault, perform, alone,
}
use redis_api.Auth.Bloom.{bloom_key}
use redis_api.Auth.Bloom.Membership.{IsOn, Marked}
use redis_api.Auth.Calls.{Only, Permits, register-Only}
use redis_api.Auth.Controller.{Identity, register}
use redis_api.Auth.Controller.Registration.{RefusedIn, register-Marked}
use redis_api.Auth.Controller.Race.{
  Request, completed, Rivals, Step, arrive, resume, elapse, Reach, here, next,
}
use redis_api.Auth.Controller.Race.Among.{All-at, All-replace}
use redis_api.Auth.Controller.Race.Marks.{Marks, register-Marks}

-- A call that clears no bit: it is no SETBIT of 0.
abbrev ClearsNone : Call → Type 0
ClearsNone (bit (setbit v) k i) = v ≡ 1
ClearsNone _ = Unit

permitted : Permits ClearsNone
permitted = record {
  posting = λ url bearer body. tt;
  getting = λ url bearer. tt;
  clock = tt;
  reading = tt;
  writing = λ t. tt;
}

module _ (y : Systems) where
  execute-On :
      (c : Call) (w : World y) (p : ℕ) → ClearsNone c → IsOn y w p → IsOn y (execute y c w).1 p
  unfolding execute
  execute-On (bit getbit k i) w p h on = on
  execute-On (bit (setbit v) k i) w p h on =
      y.bits.bit_at-set_bit k i v bloom_key p w.bits ∙ ground (arith, on, h)
  execute-On (fetch q) w p h on = on
  execute-On now w p h on = on
  execute-On read_token w p h on = on
  execute-On (write_token t) w p h on = on

  meet-On :
      (f : Fault) (c : Call) (w : World y) (p : ℕ)
      → ClearsNone c
      → IsOn y w p
      → IsOn y (meet y f c w).1 p
  meet-On sound c w p h on = execute-On c w p h on
  meet-On unsent c w p h on = on
  meet-On unanswered c w p h on = execute-On c w p h on

  perform-On :
      (c : Call) (w : World y) (p : ℕ) → ClearsNone c → IsOn y w p → IsOn y (perform y c w).1 p
  unfolding perform
  perform-On (bit command k i) w p h on = meet-On (next_fault y w.faults) (bit command k i) _ p h on
  perform-On (fetch q) w p h on = meet-On (next_fault y w.faults) (fetch q) _ p h on
  perform-On now w p h on = execute-On now w p h on
  perform-On read_token w p h on = execute-On read_token w p h on
  perform-On (write_token t) w p h on = execute-On (write_token t) w p h on

  -- A request on its way: the bits `on` are set, which are all that it still counts on.
  record Marking (w : World y) (q : Request) : Type 0 where
    on : List ℕ
    set : All (IsOn y w) on
    marks : Marks y q.dto.username q.rest on
    clears : Only ClearsNone q.rest

  Marking-map :
      (w v : World y) (q : Request)
      → ((p : ℕ) → IsOn y w p → IsOn y v p)
      → Marking w q
      → Marking v q
  Marking-map w v q f h = record {
    on = h.on;
    set = All-map (IsOn y w) (IsOn y v) h.on f h.set;
    marks = h.marks;
    clears = h.clears;
  }

  Marking-resumed :
      (w : World y) (dto : RegisterDto) (c : Call) (k : Answer (Reply c) → Method Str)
      → Marking w (record { dto = dto; rest = call c k })
      → Marking (perform y c w).1 (record { dto = dto; rest = k (perform y c w).0 })
  Marking-resumed w dto c k h =
      let kept =
        All-map (IsOn y w) (IsOn y (perform y c w).1) h.on (λ p on. perform-On c w p h.clears.0 on)
          h.set in
      let clears = h.clears.1 (perform y c w).0 in
      elim (h.marks w) [
        | inl same ↦ record { on = h.on; set = kept; marks = same; clears = clears }
        | inr (p, set, more) ↦ record {
          on = p ∷ h.on;
          set = (set, kept);
          marks = more;
          clears = clears;
        }
      ]

  Marking-completed :
      (w : World y) (dto : RegisterDto) (m : Method Str)
      → completed m ≡ 1
      → Marking w (record { dto = dto; rest = m })
      → Marked y dto.username w
  Marking-completed w dto (ret message) e h = h.marks w h.set
  Marking-completed w dto (throw x) e h = absurd (omega (arith, e))
  Marking-completed w dto (call c k) e h = absurd (omega (arith, e))

  module _ (identity : Identity) where
    abbrev AllMarking : Rivals y identity → Type 0
    AllMarking s = All (Marking s.world) s.requests

    register-Marking :
        (w : World y) (dto : RegisterDto)
        → Marking w (record { dto = dto; rest = register identity dto })
    register-Marking w dto = record {
      on = [];
      set = tt;
      marks = register-Marks y dto.username identity dto refl;
      clears = register-Only ClearsNone permitted (λ k i. tt) (λ k i. refl) identity dto;
    }

    step-AllMarking : (s t : Rivals y identity) → AllMarking s → Step y identity s t → AllMarking t
    step-AllMarking s t h (arrive dto) = (register-Marking s.world dto, h)
    step-AllMarking s t h (resume before dto c k after e) =
        let here = subst (All (Marking s.world)) e h in
        let clears =
          (All-at _ before (record { dto = dto; rest = call c k }) after here).clears.0 in
        All-replace (Marking s.world) (Marking (perform y c s.world).1) before _ _ after
          (λ q m. Marking-map s.world _ q (λ p on. perform-On c s.world p clears on) m)
          (Marking-resumed s.world dto c k) here
    step-AllMarking s t h (elapse d) =
        All-map (Marking s.world) (Marking t.world) s.requests
          (λ q m. Marking-map s.world t.world q (λ p on. on) m) h

    reach-AllMarking :
        (first s : Rivals y identity)
        → first.requests ≡ []
        → Reach y identity first s
        → AllMarking s
    reach-AllMarking first s idle here = rw idle tt
    reach-AllMarking first s idle (next r step) =
        step-AllMarking _ s (reach-AllMarking first _ idle r) step

    -- However many requests to register arrive, interleaved at every call, with whatever of their calls
    -- failing: in every state that they reach, and for every request among them that was answered 201, a
    -- registration of its username that runs from there on with nothing in between is refused, by 409 or,
    -- where a call of the filter to Redis is rejected, by its error, and asks the identity server for nothing.
    pub late_refused :
        (first s : Rivals y identity) (before : List Request) (q : Request) (after : List Request)
        (dto : RegisterDto)
        → first.requests ≡ []
        → Reach y identity first s
        → s.requests ≡ before ++ (q ∷ after)
        → completed q.rest ≡ 1
        → dto.username ≡ q.dto.username
        → RefusedIn y dto.username s.world (alone y (register identity dto) s.world)
    late_refused first s before q after dto idle r among won same =
        let markings = subst (All (Marking s.world)) among (reach-AllMarking first s idle r) in
        let marked =
          Marking-completed s.world q.dto q.rest won (All-at _ before q after markings) in
        register-Marked y identity dto s.world (subst (λ u. Marked y u s.world) (sym same) marked)
