-- ===== src/Preorder/Http.antt =====
-- Requests and responses of the functions, and src/public_origin.ts.
use mo_xx.Js.Check.{Exc}
use mo_xx.Js.Value.{infinite, fraction, negative, whole, Value, Number}
use mo_xx.Shared.{
  ltb, ◌&&◌, ◌===◌, leb, not, has, [], ◌∷◌, true, none, if◌then◌else◌, false, Bool, ℕ, some, String,
  Option, List,
}

-- A request, by what the handlers read of it. `content_length` is the header as a number, and
-- `json` what parsing the body gives or throws.
pub record Request : Type 0 where
  pub method : String
  pub origin : Option String
  pub authority : Option String
  pub content_length : Number
  pub body_length : ℕ
  pub json : Exc Value

pub record Failure : Type 0 where
  pub code : String
  pub message : String
  pub retryable : Bool
  pub next_action : String

-- The body without its `meta`, which holds a random identifier and the time.
pub data Body : Type 0 where
  empty : Body
  text : String → Body
  failure : Failure → Body
  -- an error of the database's, passed on
  error : Value → Body
  content : Value → Body

pub record Response : Type 0 where
  pub status : ℕ
  pub body : Body
  pub allow_origin : Option String
  pub retry_after : Option String

abbrev pub allowed_origins : List String
allowed_origins =
    "https://moxi-web-preorder-preview.thedoughmonster.workers.dev"
    ∷ "https://preorder.dough.monster" ∷ []

-- `publicOriginPolicy.isAllowed`
unfoldable pub is_allowed : Option String → Bool
is_allowed none = true
is_allowed (some origin) = has allowed_origins origin

-- the `Access-Control-Allow-Origin` of `publicOriginPolicy.responseHeaders`
unfoldable pub allow_origin : Option String → Option String
allow_origin none = none
allow_origin (some origin) =
    if not (origin === "") && has allowed_origins origin then some origin else none

abbrev pub respond : Request → ℕ → Body → Response
respond request status body = record {
  status = status;
  body = body;
  allow_origin = allow_origin request.origin;
  retry_after = none;
}

-- src/error_response.ts
abbrev pub error_response : Request → ℕ → Failure → Response
error_response request status f = respond request status (failure f)

abbrev pub fault : String → String → Failure
fault code message = record {
  code = code;
  message = message;
  retryable = false;
  next_action = "none";
}

abbrev pub retry_later : String → String → Failure
retry_later code message = record {
  code = code;
  message = message;
  retryable = true;
  next_action = "retry_later";
}

-- `response.headers.set("Retry-After", "60")`
abbrev pub with_retry_after : Response → Response
with_retry_after r = record r { retry_after = some "60" }

abbrev pub not_allowed : Failure
not_allowed = fault "not_authorized" "This browser origin is not allowed."

-- `Number.isFinite(length) && length >= 0 && length <= limit`
unfoldable pub accepts_length : ℕ → Number → Bool
accepts_length limit (whole n) = leb n limit
accepts_length limit (negative n) = false
accepts_length limit (fraction is_negative n) = not is_negative && ltb n limit
accepts_length limit infinite = false
accepts_length limit Number.nan = false
