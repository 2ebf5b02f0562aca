-- ===== src/Auth/Controller/Race/Winner.antt =====
-- Of the registrations of a username in src/auth/auth.controller.ts that run at the same time, one at
-- most is answered 201.
use mathlib.Core.Path.{subst}
use redis_api.Common.{
  ℕ, ◌+◌, ◌≡◌, refl, ◌++◌, ◌⊎◌, Bool-cases, inl, inr, List, [], ◌∷◌, All, Answer, arith,
  if◌then◌else◌,
}
use redis_api.Text.{Str, ◌===◌, ===_iff, ne_of_===}
use redis_api.Effect.{ret, throw, call}
use redis_api.Auth.{RegisterDto, BitCommand, getbit, setbit, Call, bit, Reply, Method}
use redis_api.Auth.World.{Systems, World, execute, perform}
use redis_api.Auth.Calls.{Only, register-Only}
use redis_api.Auth.Keycloak.Users.{Accounts, Exists, Keeps, Keeps-Permits, perform-Exists}
use redis_api.Auth.Controller.{Identity, register}
use redis_api.Auth.Controller.Race.{
  Request, completed, wins, Rivals, resumed, Step, arrive, resume, elapse, Reach, here, next,
}
use redis_api.Auth.Controller.Race.Among.{
  AllButOne, this, later, All-at, All-replace, All-spoil, AllButOne-replace,
}
use redis_api.Auth.Controller.Race.Once.{Creates, Once, register-Once}

module _ (y : Systems) (accounts : Accounts y.provider) (username : Str) where
  -- A request for the username that has not created it.
  abbrev Waits : Request → Type 0
  Waits q = q.dto.username ≡ username → Once y accounts username q.rest

  Once-completed : (m : Method Str) → Once y accounts username m → completed m ≡ 0
  Once-completed (ret a) h = absurd h
  Once-completed (throw e) h = refl
  Once-completed (call c k) h = refl

  Waits-completed :
      (q : Request) → Waits q → (if q.dto.username === username then completed q.rest else 0) ≡ 0
  Waits-completed q waits = elim (Bool-cases (q.dto.username === username)) [
    | inl same ↦ rw same (Once-completed q.rest (waits ((===_iff q.dto.username username).0 same)))
    | inr other ↦ rw other refl
  ]

  completed-bit : (m : Method Str) → (completed m + 0 ≡ 0) ⊎ (completed m + 0 ≡ 1)
  completed-bit (ret a) = inr refl
  completed-bit (throw e) = inl refl
  completed-bit (call c k) = inl refl

  All-wins : (qs : List Request) → All Waits qs → wins username qs ≡ 0
  All-wins [] h = refl
  All-wins (q ∷ qs) h = omega (arith, Waits-completed q h.0, All-wins qs h.1)

  AllButOne-wins :
      (qs : List Request) → AllButOne Waits qs → (wins username qs ≡ 0) ⊎ (wins username qs ≡ 1)
  AllButOne-wins [] h = elim h [ ]
  AllButOne-wins (_ ∷ _) (this q qs h) =
      let e = All-wins qs h in
      elim (Bool-cases (q.dto.username === username)) [
        | inl same ↦ rw (same, e) (completed-bit q.rest)
        | inr other ↦ rw (other, e) (inl refl)
      ]
  AllButOne-wins (_ ∷ _) (later q qs h o) = elim (AllButOne-wins qs o) [
    | inl e ↦ inl (omega (arith, Waits-completed q h, e))
    | inr e ↦ inr (omega (arith, Waits-completed q h, e))
  ]

  module _ (identity : Identity) where
    -- What holds of every state that the rivals reach from `first`, which has no requests.
    record Contest (first s : Rivals y identity) : Type 0 where
      keeps : All (λ (q : Request). Only (Keeps y accounts username) q.rest) s.requests
      kept : Exists y accounts username first.world → Exists y accounts username s.world
      won :
          All Waits s.requests
          ⊎ (AllButOne Waits s.requests
              × (Exists y accounts username first.world → ⊥)
              × Exists y accounts username s.world)

    bits_keep :
        (command : BitCommand) (key : Str) (offset : ℕ)
        → Keeps y accounts username (bit command key offset)
    unfolding execute
    bits_keep getbit key offset w h = h
    bits_keep (setbit v) key offset w h = h

    arrive-Contest :
        (creates : Creates accounts) (first s : Rivals y identity) (dto : RegisterDto)
        → Contest first s
        → Contest first (record s {
          requests = record { dto = dto; rest = register identity dto } ∷ s.requests;
        })
    arrive-Contest creates first s dto h =
        let waits = register-Once y accounts username creates identity dto in
        record {
          keeps = (
            register-Only (Keeps y accounts username) (Keeps-Permits y accounts username)
                (bits_keep getbit) (bits_keep (setbit 1)) identity dto,
            h.keeps,
          );
          kept = h.kept;
          won = elim h.won [
            | inl all ↦ inl (waits, all)
            | inr (one, absent, there) ↦ inr (later _ _ waits one, absent, there)
          ];
        }

    -- A call of a request for a username that exists leaves it waiting.
    waits_on :
        (w : World y) (dto : RegisterDto) (c : Call) (k : Answer (Reply c) → Method Str)
        → Exists y accounts username w
        → Waits (record { dto = dto; rest = call c k })
        → Waits (record { dto = dto; rest = k (perform y c w).0 })
    waits_on w dto c k there waits same = elim (waits same w) [
      | inl still ↦ still
      | inr (absent, made) ↦ absurd (absent there)
    ]

    -- A call of a request leaves it waiting, or creates the username.
    waits_or_made :
        (w : World y) (dto : RegisterDto) (c : Call) (k : Answer (Reply c) → Method Str)
        → Waits (record { dto = dto; rest = call c k })
        → Waits (record { dto = dto; rest = k (perform y c w).0 })
          ⊎ ((Exists y accounts username w → ⊥) × Exists y accounts username (perform y c w).1)
    waits_or_made w dto c k waits = elim (Bool-cases (dto.username === username)) [
      | inl same ↦ elim (waits ((===_iff dto.username username).0 same) w) [
        | inl still ↦ inl (λ _. still)
        | inr made ↦ inr made
      ]
      | inr other ↦ inl (λ same. absurd (ne_of_=== dto.username username other same))
    ]

    resume-Contest :
        (first s : Rivals y identity) (before : List Request) (dto : RegisterDto) (c : Call)
        (k : Answer (Reply c) → Method Str) (after : List Request)
        → s.requests ≡ before ++ (record { dto = dto; rest = call c k } ∷ after)
        → Contest first s
        → Contest first (resumed y identity s before dto c k after)
    resume-Contest first s before dto c k after e h =
        let keeps = subst (All _) e h.keeps in
        let keep = (All-at _ before (record { dto = dto; rest = call c k }) after keeps).0 in
        record {
          keeps =
              All-replace _ _ before _ _ after (λ q h. h) (λ o. o.1 (perform y c s.world).0) keeps;
          kept = λ there. perform-Exists y accounts username c s.world keep (h.kept there);
          won = elim h.won [
            | inl all ↦
                (let all' = subst (All Waits) e all in
                  elim (waits_or_made s.world dto c k
                    (All-at Waits before (record { dto = dto; rest = call c k }) after all')) [
                      | inl waits ↦
                          inl
                            (All-replace Waits Waits before _ _ after (λ q h. h) (λ _. waits) all')
                      | inr (absent, made) ↦ inr (
                        All-spoil Waits before _ _ after all',
                        λ there. absent (h.kept there),
                        made,
                      )
                    ])
            | inr (one, absent, there) ↦ inr (
              AllButOne-replace Waits before _ _ after (waits_on s.world dto c k there)
                  (subst (AllButOne Waits) e one),
              absent,
              perform-Exists y accounts username c s.world keep there,
            )
          ];
        }

    step-Contest :
        (creates : Creates accounts) (first s t : Rivals y identity)
        → Contest first s
        → Step y identity s t
        → Contest first t
    step-Contest creates first s t h (arrive dto) = arrive-Contest creates first s dto h
    step-Contest creates first s t h (resume before dto c k after e) =
        resume-Contest first s before dto c k after e h
    step-Contest creates first s t h (elapse d) = record {
      keeps = h.keeps;
      kept = h.kept;
      won = h.won;
    }

    reach-Contest :
        (creates : Creates accounts) (first s : Rivals y identity)
        → first.requests ≡ []
        → Reach y identity first s
        → Contest first s
    reach-Contest creates first s idle here = record {
      keeps = rw idle tt;
      kept = λ there. there;
      won = inl (rw idle tt);
    }
    reach-Contest creates first s idle (next r step) =
        step-Contest creates first _ s (reach-Contest creates first _ idle r) step

    Contest-wins :
        (first s : Rivals y identity)
        → Contest first s
        → (wins username s.requests ≡ 0)
          ⊎ ((wins username s.requests ≡ 1)
              × (Exists y accounts username first.world → ⊥)
              × Exists y accounts username s.world)
    Contest-wins first s h = elim h.won [
      | inl all ↦ inl (All-wins s.requests all)
      | inr (one, absent, there) ↦ elim (AllButOne-wins s.requests one) [
        | inl none ↦ inl none
        | inr won ↦ inr (won, absent, there)
      ]
    ]

    -- However many requests to register arrive, interleaved at every call, with whatever of their calls
    -- failing, on an identity server that takes no username away, creates none that it has, and has every
    -- one whose creation it answers with success: of the requests for a username, none is answered 201, or
    -- one is, where the identity server did not have the username at first and has it in the end.
    pub one_winner :
        (creates : Creates accounts) (first s : Rivals y identity)
        → first.requests ≡ []
        → Reach y identity first s
        → (wins username s.requests ≡ 0)
          ⊎ ((wins username s.requests ≡ 1)
              × (Exists y accounts username first.world → ⊥)
              × Exists y accounts username s.world)
    one_winner creates first s idle r = Contest-wins first s (reach-Contest creates first s idle r)
