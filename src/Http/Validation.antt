-- ===== src/Http/Validation.antt =====
-- The DTOs of src/auth/dto, and `ValidationPipe({ whitelist, forbidNonWhitelisted })` of src/main.ts
-- on them. `IsEmail` of class-validator is the argument `is_email`; lengths count characters of the
-- basic plane.
use redis_api.Common.{
  ℕ, ◌≤◌, ◌≡◌, refl, ◌&&◌, ◌||◌, Bool, true, false, Option, none, some, List, [], ◌∷◌, length, leb,
  all, arith, if◌then◌else◌,
}
use redis_api.Text.{Str, codes, ◌===◌}
use redis_api.Auth.{RegisterDto}
use redis_api.Http.{Body}

-- LoginDto
pub record LoginDto : Type 0 where
  pub username : Str
  pub password : Str

-- The property of the body, where it is a string (`@IsString()`).
unfoldable pub text_at : Str → Body → Option Str
text_at key [] = none
text_at key ((k, v) ∷ b) = if k === key then v else text_at key b

-- `@MinLength(min)` and `@MaxLength(max)`
abbrev pub within : ℕ → ℕ → Option Str → Option Str
within min max none = none
within min max (some s) = if leb min (length s) && leb (length s) max then some s else none

-- `@IsEmail()`
abbrev pub email : (Str → Bool) → Option Str → Option Str
email is_email none = none
email is_email (some s) = if is_email s then some s else none

unfoldable pub one_of : List Str → Str → Bool
one_of [] key = false
one_of (k ∷ ks) key = k === key || one_of ks key

-- `forbidNonWhitelisted`
abbrev pub whitelisted : List Str → Body → Bool
whitelisted keys body = all (λ (p : Str × Option Str). one_of keys p.0) body

infixl 5 ◌>>=◌
abbrev pub ◌>>=◌ : {A B : Type 0} → Option A → (A → Option B) → Option B
none >>= f = none
some a >>= f = f a

abbrev pub login_fields : List Str
login_fields = codes "username" ∷ codes "password" ∷ []

unfoldable pub login_dto : Body → Option LoginDto
unfolding text_at one_of
login_dto body = do
  username ← within 0 100 (text_at (codes "username") body)
  password ← within 0 128 (text_at (codes "password") body)
  if whitelisted login_fields body
      then some (record { username = username; password = password })
      else none

abbrev pub register_fields : List Str
register_fields =
    codes "username" ∷ codes "password" ∷ codes "email" ∷ codes "firstName" ∷ codes "lastName" ∷ []

-- The DTO, where every property passed and there is no other.
abbrev pub assembled :
    Option Str → Option Str → Option Str → Option Str → Option Str → Bool → Option RegisterDto
assembled username password address first_name last_name known = do
  u ← username
  p ← password
  a ← address
  f ← first_name
  l ← last_name
  if known
      then some (record { username = u; password = p; email = a; first_name = f; last_name = l })
      else none

unfoldable pub register_dto : (Str → Bool) → Body → Option RegisterDto
unfolding text_at one_of
register_dto is_email body =
    assembled (within 3 50 (text_at (codes "username") body))
      (within 8 128 (text_at (codes "password") body))
      (within 0 255 (email is_email (text_at (codes "email") body)))
      (within 0 50 (text_at (codes "firstName") body))
      (within 0 50 (text_at (codes "lastName") body)) (whitelisted register_fields body)

-- What a text that passed was.
within-some :
    (min max : ℕ) (o : Option Str) (s : Str)
    → within min max o ≡ some s
    → (o ≡ some s) × (min ≤ length s) × (length s ≤ max)
within-some min max none s e = cc
within-some min max (some t) s e = ground arith

email-some :
    (is_email : Str → Bool) (o : Option Str) (s : Str)
    → email is_email o ≡ some s
    → (o ≡ some s) × (is_email s ≡ true)
email-some is_email none s e = cc
email-some is_email (some t) s e = ground arith

assembled-some :
    (u p a f l : Option Str) (known : Bool) (dto : RegisterDto)
    → assembled u p a f l known ≡ some dto
    → (u ≡ some dto.username)
      × (p ≡ some dto.password)
      × (a ≡ some dto.email)
      × (f ≡ some dto.first_name)
      × (l ≡ some dto.last_name)
      × (known ≡ true)
assembled-some none p a f l known dto e = cc
assembled-some (some u) none a f l known dto e = cc
assembled-some (some u) (some p) none f l known dto e = cc
assembled-some (some u) (some p) (some a) none l known dto e = cc
assembled-some (some u) (some p) (some a) (some f) none known dto e = cc
assembled-some (some u) (some p) (some a) (some f) (some l) false dto e = cc
assembled-some (some u) (some p) (some a) (some f) (some l) true dto e =
    (ground arith, ground arith, ground arith, ground arith, ground arith, refl)

-- A body that passes the validation of a registration has the five fields of the DTO, each a string
-- within its bounds and the address an email, and no other field.
pub register_dto-some :
    (is_email : Str → Bool) (body : Body) (dto : RegisterDto)
    → register_dto is_email body ≡ some dto
    → ((text_at (codes "username") body ≡ some dto.username)
        × (3 ≤ length dto.username)
        × (length dto.username ≤ 50))
      × ((text_at (codes "password") body ≡ some dto.password)
          × (8 ≤ length dto.password)
          × (length dto.password ≤ 128))
      × ((text_at (codes "email") body ≡ some dto.email)
          × (is_email dto.email ≡ true)
          × (length dto.email ≤ 255))
      × ((text_at (codes "firstName") body ≡ some dto.first_name) × (length dto.first_name ≤ 50))
      × ((text_at (codes "lastName") body ≡ some dto.last_name) × (length dto.last_name ≤ 50))
      × (whitelisted register_fields body ≡ true)
unfolding register_dto
register_dto-some is_email body dto e =
    let (u, p, a, f, l, known) = assembled-some _ _ _ _ _ _ dto e in
    let (address, short) = split (within-some 0 255 _ dto.email a) in
    let (at, valid) = email-some is_email _ dto.email address in
    (
      within-some 3 50 _ dto.username u,
      within-some 8 128 _ dto.password p,
      (at, valid, short),
      split (within-some 0 50 _ dto.first_name f),
      split (within-some 0 50 _ dto.last_name l),
      known,
    )
  where
    split :
        {o : Option Str} {s : Str} {m n : ℕ}
        → (o ≡ some s) × (n ≤ length s) × (length s ≤ m)
        → (o ≡ some s) × (length s ≤ m)
    split (a, b, c) = (a, c)
