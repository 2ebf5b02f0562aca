-- ===== src/Auth.antt =====
-- src/auth: registration and login, the Bloom filter of usernames, the guards. Here: what its
-- methods call, Redis for the filter's bits and Keycloak by HTTP.
pub mod World
pub mod Memory
pub mod Bloom
pub mod Keycloak
pub mod Calls
pub mod Controller
pub mod Guards
pub mod Strategy
pub mod Directory
mod Tests
use redis_api.Common.{ℕ, ◌&&◌, Bool, Option, List, Answer, leb}
use redis_api.Text.{Str}
use redis_api.Effect.{Prog}

-- RegisterDto
pub record RegisterDto : Type 0 where
  pub username : Str
  pub password : Str
  pub email : Str
  pub first_name : Str
  pub last_name : Str

-- Bodies as they are before they are written out as a form or as JSON.
pub data Body : Type 0 where
  no_body : Body
  form : List (Str × Str) → Body
  user_body : RegisterDto → Body
  role_body : Str → Str → Body

pub record HttpRequest : Type 0 where
  pub verb : Str
  pub url : Str
  -- the text behind `Bearer `
  pub bearer : Option Str
  pub body : Body

-- The fields that the service reads of a JSON body.
pub record Json : Type 0 where
  pub access_token : Str
  pub refresh_token : Str
  pub expires_in : ℕ
  pub token_type : Str
  pub id : Str
  pub name : Str

-- `json` is an error where the body is no JSON.
pub record Response : Type 0 where
  pub status : ℕ
  pub location : Option Str
  pub json : Answer Json

-- `res.ok`
abbrev pub ok : Response → Bool
ok res = leb 200 res.status && leb res.status 299

pub data BitCommand : Type 0 where
  getbit : BitCommand
  setbit : ℕ → BitCommand

-- AdminToken of keycloak-identity.service.ts, with the time at which it expires in milliseconds
pub record AdminToken : Type 0 where
  pub value : Str
  pub expires_at : ℕ

pub data Call : Type 0 where
  -- GETBIT key offset, SETBIT key offset value
  bit : BitCommand → Str → ℕ → Call
  fetch : HttpRequest → Call
  -- `Date.now()`, and the field `adminToken`, which requests share
  now : Call
  read_token : Call
  write_token : AdminToken → Call

abbrev pub Reply : Call → Type 0
Reply (bit command key offset) = ℕ
Reply (fetch request) = Response
Reply now = ℕ
Reply read_token = Option AdminToken
Reply (write_token t) = Unit

abbrev pub Method : Type 0 → Type 0
Method = Prog Call Reply
