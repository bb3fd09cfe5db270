-- ===== src/Payment.antt =====
-- src/myt_machine/payment_requests.py: the immutable payment request. What the program takes from
-- `json`, `hashlib` and `unicodedata` is a parameter.
pub mod Equal
pub mod Valid
pub mod RoundTrip
use myt_machine.Base.{
  ℕ, ◌+◌, ◌-◌, ◌*◌, ◌≤◌, Bool, true, false, not, ◌&&◌, ◌||◌, Option, none, some, List, [], ◌∷◌,
  ◌++◌, String, Text, ◌==◌, ℕ_eq, Text_eq, ltb, leb, if◌then◌else◌, length, all, any, take,
}
use myt_machine.Base.Int.{ℤ, pos, sub_ℕ}
use myt_machine.Base.Strings.{codes, is_digit, is_upper, is_lower, utf8}
use myt_machine.Errors.{input_error, Result, ok, err, ◌>>=◌, ◌>>◌, require}
use myt_machine.Json.{Value, Fields, end, field, get, has_exactly, equals_text}
use myt_machine.Amounts.{uint64_max}

pub record Platform : Type 0 where
  -- `json.dumps` with sorted keys, no spaces and ASCII output; `none` if it raises
  pub dumps : Value → Option Text
  -- `json.loads` with the strict hooks; `none` if it raises
  pub loads : Text → Option Value
  -- `bytes.decode("utf-8")`
  pub decode : Text → Option Text
  -- `hashlib.sha256(data).hexdigest()` of the bytes of an ASCII text
  pub sha256 : Text → Text
  -- `unicodedata.normalize("NFC", value) == value`
  pub is_nfc : Text → Bool
  -- `unicodedata.category(c).startswith("C")`
  pub is_control : ℕ → Bool

abbrev pub max_request_bytes : ℕ
max_request_bytes = 8192

abbrev pub max_timestamp : ℕ
max_timestamp = 253402300799

abbrev pub max_lifetime : ℕ
max_lifetime = 30 * 24 * 60 * 60

abbrev pub request_type : Text
request_type = codes "myt-payment-request"

abbrev pub request_fields : List String
request_fields =
    "type" ∷ "version" ∷ "invoice_id" ∷ "network" ∷ "recipient_address" ∷ "amount_atomic"
    ∷ "created_at" ∷ "expires_at" ∷ "memo" ∷ "reference" ∷ []

-- All bounds in use are natural numbers.
unfoldable pub bounded_int : Value → ℕ → ℕ → Result ℕ
bounded_int (Value.int (pos n)) minimum maximum =
    if leb minimum n && leb n maximum then ok n else err input_error
bounded_int _ minimum maximum = err input_error

-- `_ID.fullmatch`
unfoldable pub is_identifier : Text → Bool
is_identifier s =
    leb 1 (length s)
    && leb (length s) 128
    && all (λ c. is_digit c || is_upper c || is_lower c || c == b'_' || c == b'-') s

unfoldable pub validate_identifier : Value → Result Text
validate_identifier (Value.str s) = if is_identifier s then ok s else err input_error
validate_identifier _ = err input_error

abbrev pub mainnet : Text
mainnet = codes "mainnet"

unfoldable pub is_network : Text → Bool
is_network s = s == mainnet || s == codes "testnet" || s == codes "stagenet"

unfoldable pub validate_network : Value → Result Text
validate_network (Value.str s) = if is_network s then ok s else err input_error
validate_network _ = err input_error

-- A character of `[1-9A-HJ-NP-Za-km-z]`.
unfoldable pub is_base58 : ℕ → Bool
is_base58 c =
    leb b'1' c && leb c b'9'
    || leb b'A' c && leb c b'H'
    || leb b'J' c && leb c b'N'
    || leb b'P' c && leb c b'Z'
    || leb b'a' c && leb c b'k'
    || leb b'm' c && leb c b'z'

unfoldable pub recipient_length : Text → ℕ
recipient_length network = if network == mainnet then 95 else 97

unfoldable pub is_recipient : Text → Text → Bool
is_recipient network s = length s == recipient_length network && all is_base58 s

unfoldable pub validate_recipient : Value → Text → Result Text
validate_recipient value network = do
  validate_network (Value.str network)
  elim value [
    | Value.str s ↦ if is_recipient network s then ok s else err input_error
    | _ ↦ err input_error
  ]

pub record PaymentRequest : Type 0 where
  pub invoice_id : Text
  pub network : Text
  pub recipient_address : Text
  pub amount_atomic : ℕ
  pub created_at : ℕ
  pub expires_at : ℕ
  pub memo : Option Text
  pub reference : Option Text

abbrev pub optional : Option Text → Value
optional none = Value.null
optional (some s) = Value.str s

abbrev pub nat : ℕ → Value
nat n = Value.int (pos n)

unfoldable pub as_dict : PaymentRequest → Fields
as_dict r = field "type" (Value.str request_type) (
    field "version" (nat 1) (
      field "invoice_id" (Value.str r.invoice_id) (
        field "network" (Value.str r.network) (
          field "recipient_address" (Value.str r.recipient_address) (
            field "amount_atomic" (nat r.amount_atomic) (
              field "created_at" (nat r.created_at) (
                field "expires_at" (nat r.expires_at) (
                  field "memo" (optional r.memo)
                    (field "reference" (optional r.reference) end)))))))))

-- What `strict_json` accepts: a `str`, `bytes`, or anything else.
pub data Input : Type 0 where
  text : Text → Input
  bytes : Text → Input
  other : Input

-- `type(value) is int and value == 1`
unfoldable pub is_version_one : Value → Bool
is_version_one (Value.int (pos n)) = n == 1
is_version_one _ = false

-- `unix_time`, where `none` reads the clock.
unfoldable pub unix_time : Value → Option Value → Result ℕ
unix_time clock none = bounded_int clock 0 max_timestamp
unix_time clock (some now) = bounded_int now 0 max_timestamp

-- `not encoded or len(encoded) > maximum or encoded.startswith(b"\xef\xbb\xbf")`
unfoldable pub refused_bytes : Text → ℕ → Bool
refused_bytes encoded maximum =
    length encoded == 0 || ltb maximum (length encoded) || take 3 encoded == 0xEF ∷ 0xBB ∷ 0xBF ∷ []

module _ (p : Platform) where
  -- The test of `_optional_text` on a `str`.
  unfoldable pub is_bounded_text : ℕ → Text → Bool
  is_bounded_text maximum s = leb (length s) maximum && elim (utf8 s) [
    | none ↦ false
    | some encoded ↦ leb (length encoded) maximum && p.is_nfc s && not (any (λ c. p.is_control c) s)
  ]

  unfoldable pub optional_text : Value → ℕ → Result (Option Text)
  optional_text Value.null maximum = ok none
  optional_text (Value.str s) maximum =
      if is_bounded_text maximum s then ok (some s) else err input_error
  optional_text _ maximum = err input_error

  unfoldable pub canonical_json : Value → Result Text
  canonical_json v = elim (p.dumps v) [ none ↦ err input_error | some s ↦ ok s ]

  unfoldable pub loads_json : Text → Result Value
  loads_json s = elim (p.loads s) [ none ↦ err input_error | some v ↦ ok v ]

  -- Decoding what a `str` was encoded to gives that `str` back.
  unfoldable pub strict_json : Input → ℕ → Result Value
  strict_json (text s) maximum = if ltb maximum (length s) then err input_error else elim (utf8 s) [
    | none ↦ err input_error
    | some encoded ↦ if refused_bytes encoded maximum then err input_error else loads_json s
  ]
  strict_json (bytes encoded) maximum =
      if refused_bytes encoded maximum
      then err input_error
      else elim (p.decode encoded) [ none ↦ err input_error | some s ↦ loads_json s ]
  strict_json other maximum = err input_error

  -- The constructor `PaymentRequest(…)` with its `__post_init__`, over any values.
  unfoldable pub new :
      Value → Value → Value → Value → Value → Value → Value → Value → Result PaymentRequest
  new invoice_id network recipient_address amount_atomic created_at expires_at memo reference = do
    invoice_id' ← validate_identifier invoice_id
    network' ← validate_network network
    recipient' ← validate_recipient recipient_address network'
    amount' ← bounded_int amount_atomic 1 uint64_max
    created' ← bounded_int created_at 0 max_timestamp
    expires' ← bounded_int expires_at 0 max_timestamp
    bounded_int (Value.int (sub_ℕ expires' created')) 1 max_lifetime
    memo' ← optional_text memo 1024
    reference' ← optional_text reference 256
    ok (record {
      invoice_id = invoice_id';
      network = network';
      recipient_address = recipient';
      amount_atomic = amount';
      created_at = created';
      expires_at = expires';
      memo = memo';
      reference = reference';
    })

  -- `request.__post_init__()` on a request that is there already.
  unfoldable pub post_init : PaymentRequest → Result PaymentRequest
  post_init r =
      new (Value.str r.invoice_id) (Value.str r.network) (Value.str r.recipient_address)
        (nat r.amount_atomic) (nat r.created_at) (nat r.expires_at) (optional r.memo)
        (optional r.reference)

  unfoldable pub serialize_payment_request : PaymentRequest → Result Text
  serialize_payment_request r = do post_init r; canonical_json (Value.dict (as_dict r))

  -- The property `proof_message`.
  unfoldable pub proof_message : PaymentRequest → Result Text
  proof_message r = do
    content ← serialize_payment_request r
    ok (codes "myt-machine/invoice/v1:" ++ p.sha256 content)

  -- `fresh` is the text of the new `uuid4`, and `clock` what `int(time.time())` reads.
  unfoldable pub create_payment_request :
      Text
      → Value
      → Value
      → Value
      → Value
      → Value
      → Value
      → Value
      → Value
      → Option Value
      → Result PaymentRequest
  create_payment_request fresh clock recipient_address amount_atomic network expires_in memo
        reference invoice_id now =
      do
        created ← unix_time clock now
        lifetime ← bounded_int expires_in 1 max_lifetime
        new (elim invoice_id [ Value.null ↦ Value.str fresh | given ↦ given ]) network
            recipient_address amount_atomic (nat created) (nat (created + lifetime)) memo reference

  unfoldable pub parse_fields : Fields → Result PaymentRequest
  parse_fields f = do
    require (has_exactly request_fields f) input_error
    require (equals_text (get "type" f) request_type && is_version_one (get "version" f))
        input_error
    new (get "invoice_id" f) (get "network" f) (get "recipient_address" f) (get "amount_atomic" f)
        (get "created_at" f) (get "expires_at" f) (get "memo" f) (get "reference" f)

  abbrev pub parse_value : Value → Result PaymentRequest
  parse_value (Value.dict f) = parse_fields f
  parse_value _ = err input_error

  -- `parse_payment_request` of a text or of bytes.
  unfoldable pub parse_payment_request : Input → Result PaymentRequest
  parse_payment_request value = do v ← strict_json value max_request_bytes; parse_value v
