-- ===== src/Preorder/Requests/Coercion.antt =====
-- What `String` makes of a value that is no text, where a parser tests an identifier.
use mo_xx.Js.Check.Inversion.{HasText, HasText-str, on_text-pass, require-pass}
use mo_xx.Js.Check.{raise, require_ok, require, on_text, to_string, throw, accept, ok}
use mo_xx.Preorder.Http.{accepts_length, is_allowed, Request}
use mo_xx.Payment.Initiate.{InitiateDependencies}
use mo_xx.Js.Text.{fits, is_uuid}
use mo_xx.Preorder.Checkout.{handle_request}
use mo_xx.Preorder.Requests.{parse_initiate_request}
use mo_xx.Preorder.PaymentService.{orchestrate_parsed, read_json_body, handle_initiate}
use mo_xx.Js.Value.{nil, end, cons, whole, arr, number, str, field, obj, field_of, Value}
use Prim.Native.String
use text.Mathlib.TextLemmas.{append-nil}
use mo_xx.Js.Check.{◌>>◌}
use mo_xx.Shared.{===→eq, false, ap, refl, le→leb, ◌∙◌, leb, ◌===◌, ◌≤◌, true, ℕ, Bool, String, ◌≡◌}

-- a payment request with its command identifier as any value
abbrev pub initiate_request : Value → String → ℕ → String → String → Value
initiate_request command order_id version spelling token = obj (
    field "command_id" command (
      field "order_id" (str order_id) (
        field "expected_order_version" (number (whole version) spelling)
          (field "source_token" (str token) end))))

singleton_text : (p : String → Bool) (s : String) → p s ≡ true → HasText p (arr (cons (str s) nil))
unfolding to_string
singleton_text p s h = (String.◌++◌ s "", refl, ap p (append-nil s) ∙ h)

-- A payment request is accepted with its command identifier as a list of one text, if the text and
-- the order identifier are UUIDs, the version is positive and the token has 1 to 512 units.
pub parse_initiate_request-singleton :
    (command order_id spelling token : String) (version : ℕ)
    → is_uuid command ≡ true
    → is_uuid order_id ≡ true
    → 1 ≤ version
    → fits 1 512 token ≡ true
    → let v = initiate_request (arr (cons (str command) nil)) order_id version spelling token in
      parse_initiate_request v ≡ accept v
unfolding parse_initiate_request field_of
parse_initiate_request-singleton command order_id spelling token version c o n t =
    require-pass _ refl
    ∙ on_text-pass _ is_uuid (arr (cons (str command) nil)) (singleton_text is_uuid command c)
    ∙ on_text-pass _ is_uuid (str order_id) (HasText-str is_uuid order_id o)
    ∙ require-pass _ (le→leb 1 version n)
    ∙ require-pass _ t

parse_initiate_request-raises :
    (v : Value) (order_id spelling token : String) (version : ℕ)
    → parse_initiate_request
        (initiate_request (obj (field "toString" v end)) order_id version spelling token)
      ≡ raise "TypeError"
unfolding parse_initiate_request field_of to_string on_text require require_ok ◌>>◌
parse_initiate_request-raises v order_id spelling token version = refl

not_options : (method : String) → (method === "POST") ≡ true → (method === "OPTIONS") ≡ false
not_options method h = rw (===→eq method "POST" h) refl

read_json_body-of :
    (request : Request) {raw : Value}
    → accepts_length 8192 request.content_length ≡ true
    → leb request.body_length 8192 ≡ true
    → request.json ≡ ok raw
    → read_json_body request ≡ ok raw
unfolding read_json_body
read_json_body-of request l b j = rw (l, b) j

-- A payment request from an allowed origin, by POST, of an admitted size, whose command identifier
-- is an object with the one key "toString" makes the function throw: it gives no answer.
pub handle_initiate-escapes :
    (date_finite : String → Bool) (deps : InitiateDependencies) (request : Request)
    (order_id spelling token : String) (version : ℕ) (v : Value)
    → is_allowed request.origin ≡ true
    → (request.method === "POST") ≡ true
    → accepts_length 8192 request.content_length ≡ true
    → leb request.body_length 8192 ≡ true
    → request.json
      ≡ ok (initiate_request (obj (field "toString" v end)) order_id version spelling token)
    → (handle_initiate date_finite deps request).outcome ≡ throw "TypeError"
unfolding handle_initiate handle_request orchestrate_parsed
handle_initiate-escapes date_finite deps request order_id spelling token version v a p l b j =
    rw
      (
        a,
        not_options request.method p,
        p,
        read_json_body-of request l b j,
        parse_initiate_request-raises v order_id spelling token version,
      )
      refl
