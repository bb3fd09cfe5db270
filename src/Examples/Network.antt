-- ===== src/Examples/Network.antt =====
-- The theorems on the wallet RPC client, at concrete inputs.
use myt_machine.Base.{
  ℕ, ◌≡◌, ◌≤◌, refl, false, Bool, Option, none, some, List, [], ◌∷◌, ◌++◌, Text, ◌==◌, Text_eq, any,
  leb, ltb, arith, if◌then◌else◌,
}
use myt_machine.Base.Strings.{codes}
use myt_machine.Base.Int.{pos}
use myt_machine.Json.{Value, Fields, end, field}
use myt_machine.Amounts.{decimal}
use myt_machine.Rpc.{
  SplitUrl, Net, RpcConfig, new_config, is_none, min_response_bytes, max_response_bytes,
}
use myt_machine.Rpc.Config.{IsSafeUrl, new_config_lem}
use myt_machine.Rpc.Digest.{
  Attempt, done, HttpResponse, quoted, is_control_code, Exchange, open_request,
}
use myt_machine.Rpc.Attempts.{IsExchange, open_request-IsExchange}
use myt_machine.Rpc.Quoting.{read_quoted, quoted_lem}
use myt_machine.Rpc.Client.{Decoded, decoded, malformed, Client, payload, call}
use myt_machine.Rpc.Accepted.{IsAnswer, call-IsAnswer}

abbrev loopback : Text
loopback = codes "127.0.0.1"

-- Every URL is this one, and every challenge has these fields.
abbrev challenge_field : Text → Option Text
challenge_field key =
    if key == codes "realm"
    then some (codes "wallet")
    else if key == codes "nonce"
    then some (codes "n1")
    else if key == codes "qop"
    then some (codes "auth")
    else none

abbrev local_net : Net
local_net = record {
  urlsplit = λ s. some (record {
    scheme = codes "http";
    netloc = loopback;
    hostname = some loopback;
    username = none;
    password = none;
    path = [];
    query = [];
    fragment = [];
  });
  urlunsplit = λ scheme netloc. scheme ++ (codes "://" ++ netloc);
  is_loopback_address = λ s. s == loopback;
  lower = λ s. s;
  upper = λ s. s;
  parse_fields = λ s. some challenge_field;
  md5 = λ s. codes "d41d8cd98f00b204e9800998ecf8427e";
}

abbrev local_config : RpcConfig
local_config = record {
  url = codes "http://127.0.0.1";
  username = some (codes "user");
  password = some (codes "secret");
  timeout = Value.int (pos 30);
  allow_insecure_http = false;
  max_bytes = 1024;
}

new_config_lem_example :
    IsSafeUrl local_net (Value.str (codes "http://127.0.0.1")) local_config.url false
    × (is_none (some (codes "user")) ≡ is_none (some (codes "secret")))
    × (min_response_bytes ≤ 1024)
    × (1024 ≤ max_response_bytes)
unfolding new_config myt_machine.Rpc.check_flag myt_machine.Rpc.normalize_url
    myt_machine.Rpc.check_url myt_machine.Base.text_eq myt_machine.Rpc.named_host
    myt_machine.Rpc.is_loopback myt_machine.Base.Strings.rstrip myt_machine.Rpc.both_or_neither
    myt_machine.Rpc.credential myt_machine.Rpc.check_timeout myt_machine.Rpc.check_max_bytes
new_config_lem_example =
    new_config_lem local_net (Value.str (codes "http://127.0.0.1")) (Value.str (codes "user"))
      (Value.str (codes "secret")) (Value.int (pos 30)) (Value.bool false) (Value.int (pos 1024))
      local_config refl

quoted_lem_example :
    (read_quoted false (codes "a\\\"b\", c") ≡ some (codes "a\"b", codes ", c"))
    × (any is_control_code (codes "a\"b") ≡ false)
unfolding quoted is_control_code myt_machine.Rpc.Digest.escape
quoted_lem_example = quoted_lem (codes "a\"b") (codes "a\\\"b") (codes ", c") refl

abbrev unauthorized : Attempt HttpResponse
unauthorized = done (record { status = 401; challenges = codes "digest x" ∷ []; body = [] })

abbrev accepted_response : Attempt HttpResponse
accepted_response = done (record { status = 200; challenges = []; body = codes "{}" })

open_request-IsExchange_example :
    IsExchange local_net
      (some (codes "user", codes "secret"))
      (codes "/json_rpc")
      (codes "c1")
      unauthorized
      (open_request local_net
        (some (codes "user", codes "secret"))
        (codes "/json_rpc")
        (codes "c1")
        unauthorized
        accepted_response)
open_request-IsExchange_example =
    open_request-IsExchange local_net (some (codes "user", codes "secret")) (codes "/json_rpc")
      (codes "c1") unauthorized accepted_response

abbrev client : Client
client = record { config = local_config; next_id = 7 }

-- The decoder reads one response from every text.
abbrev answer : Fields
answer = field "height" (Value.int (pos 5)) end

abbrev response_loads : Text → Decoded
response_loads s =
    decoded
      (Value.dict (field "id" (Value.str (decimal 7)) (field "result" (Value.dict answer) end)))

call-IsAnswer_example :
    (body : Text) × (done (codes "{}") ≡ done body)
    × IsAnswer response_loads 1024 (decimal 7) body answer
unfolding call myt_machine.Rpc.Client.finish_call myt_machine.Rpc.Client.read_response
    myt_machine.Rpc.Client.check_response myt_machine.Json.equals_text myt_machine.Json.get
    myt_machine.Json.lookup myt_machine.Base.text_eq decimal myt_machine.Json.contains
    myt_machine.Rpc.Client.result_of
call-IsAnswer_example =
    call-IsAnswer response_loads (λ v. done (codes "{}")) client (codes "get_height") none false
      answer refl
