-- ===== src/Http/Parser.antt =====
-- HttpParser: what its llhttp callbacks do. llhttp itself is a parameter: the callbacks that one
-- llhttp_execute makes, and its result, are the input of `feed`.
use rtcvpn.Common.{
  ℕ, ◌+◌, ◌*◌, List, [], ◌∷◌, ◌++◌, Bool, true, false, not, ◌||◌, Option, none, some, ltb, leb,
  ◌==◌, if◌then◌else◌, length, take, drop,
}
use rtcvpn.Http.{ParserType, unknown, request, response, Message}
use rtcvpn.Http.Serialize.{empty_message}
use rtcvpn.Protocol.Origin.{find_char}

pub record Parser : Type 0 where
  pub type : ParserType
  pub message : Message
  pub cur_header_field : List ℕ
  pub cur_header_value : List ℕ
  pub in_header_value : Bool
  pub cur_url : List ℕ
  pub cur_status : List ℕ
  pub message_complete : Bool
  pub had_error : Bool
  pub remaining_after_upgrade : List ℕ
  pub is_chunked : Bool
  pub on_headers_complete : Bool  -- whether each callback of the owner is installed
  pub on_body : Bool
  pub on_message_complete : Bool
  pub on_error : Bool
  pub on_paused_upgrade : Bool

-- What llhttp knows at the end of the headers.
pub record Flags : Type 0 where
  pub http_major : ℕ
  pub http_minor : ℕ
  pub method_name : List ℕ
  pub is_connect : Bool
  pub status_code : ℕ
  pub chunked : Bool
  pub upgrade : Bool
  pub connection_keep_alive : Bool
  pub connection_close : Bool
  pub keep_alive : Bool
  pub content_length : Option ℕ

pub data Event : Type 0 where
  message_begin message_done : Event
  url status header_field header_value body : List ℕ → Event
  headers_done : Flags → Event

-- Calls of the owner's callbacks.
pub data Notice : Type 0 where
  headers_complete : Message → Notice
  body_part : List ℕ → Notice
  complete : Notice
  failed : ℕ → Notice
  paused_upgrade : List ℕ → Notice

abbrev cleared : Message → Parser → Parser
cleared m p = record p {
  message = m;
  cur_header_field = [];
  cur_header_value = [];
  in_header_value = false;
  cur_url = [];
  cur_status = [];
  message_complete = false;
}

-- init: `type` is kept unless another is given, and Unknown means Request.
unfoldable pub init : ParserType → Parser → Parser
init t p =
    let t' : ParserType = elim t [ unknown ↦ request | request ↦ request | response ↦ response ] in
    record (cleared (record empty_message { type = t' }) p) {
      type = t';
      had_error = false;
      remaining_after_upgrade = [];
    }

-- reset.
unfoldable pub reset : ParserType → Parser → Parser
unfolding init
reset t p = init (elim t [ unknown ↦ p.type | request ↦ request | response ↦ response ]) p

-- The setters of the callbacks.
abbrev pub set_on_headers_complete : Parser → Parser
set_on_headers_complete p = record p { on_headers_complete = true }

abbrev pub set_on_body : Parser → Parser
set_on_body p = record p { on_body = true }

abbrev pub set_on_message_complete : Parser → Parser
set_on_message_complete p = record p { on_message_complete = true }

abbrev pub set_on_error : Parser → Parser
set_on_error p = record p { on_error = true }

abbrev pub set_on_paused_upgrade : Parser → Parser
set_on_paused_upgrade p = record p { on_paused_upgrade = true }

-- HttpParser(type), with no callback installed.
abbrev pub new_parser : ParserType → Parser
new_parser t = init t (record {
  type = request;
  message = empty_message;
  cur_header_field = [];
  cur_header_value = [];
  in_header_value = false;
  cur_url = [];
  cur_status = [];
  message_complete = false;
  had_error = false;
  remaining_after_upgrade = [];
  is_chunked = false;
  on_headers_complete = false;
  on_body = false;
  on_message_complete = false;
  on_error = false;
  on_paused_upgrade = false;
})

-- take_remaining.
unfoldable pub take_remaining : Parser → List ℕ × Parser
take_remaining p = (p.remaining_after_upgrade, record p { remaining_after_upgrade = [] })

-- The pair read so far goes to the headers, and the two buffers are emptied.
abbrev flush : Parser → Parser
flush p = record p {
  message = record p.message {
    headers =
        p.message.headers ++ record { name = p.cur_header_field; value = p.cur_header_value } ∷ [];
  };
  cur_header_field = [];
  cur_header_value = [];
  in_header_value = false;
}

-- The split of the URL at its first question mark.
abbrev path_of : List ℕ → List ℕ
path_of target = elim (find_char b'?' target) [ none ↦ target | some i ↦ take i target ]

abbrev query_of : List ℕ → List ℕ → List ℕ
query_of target old = elim (find_char b'?' target) [ none ↦ old | some i ↦ drop (i + 1) target ]

abbrev or_old : Option ℕ → Option ℕ → Option ℕ
or_old none old = old
or_old (some n) old = some n

abbrev is_zero_length : Option ℕ → Bool
is_zero_length none = false
is_zero_length (some n) = n == 0

-- The fields that on_headers_complete_cb fills, on each type of parser.
unfoldable pub describe : ParserType → Flags → Parser → Message → Message
describe request f p m = record m {
  method = f.method_name;
  target = p.cur_url;
  connect = f.is_connect;
  path = path_of p.cur_url;
  query = query_of p.cur_url m.query;
}
describe _ f p m = record m { status_code = f.status_code; reason = p.cur_status }

unfoldable pub finish_headers : Flags → Parser → Parser
finish_headers f p =
    let m = describe p.type f p (record p.message { version = f.http_major * 10 + f.http_minor }) in
    let length_known = or_old f.content_length m.content_length in
    record p {
      is_chunked = f.chunked;
      message = record m {
        chunked = f.chunked;
        upgrade = f.upgrade;
        connection_keep_alive = f.connection_keep_alive;
        connection_close = f.connection_close;
        keep_alive = f.keep_alive;
        content_length = length_known;
        has_body = not (is_zero_length length_known) || f.chunked;
      };
    }

abbrev when : Bool → Notice → List Notice
when b n = if b then n ∷ [] else []

-- One callback of llhttp.
unfoldable pub handle : Event → Parser → Parser × List Notice
handle message_begin p = (cleared (record empty_message { type = p.type }) p, [])
handle (url at) p = (record p { cur_url = p.cur_url ++ at }, [])
handle (status at) p = (record p { cur_status = p.cur_status ++ at }, [])
handle (header_field at) p =
    let q = if p.in_header_value then flush p else p in
    (record q { cur_header_field = q.cur_header_field ++ at }, [])
handle (header_value at) p =
    (record p { in_header_value = true; cur_header_value = p.cur_header_value ++ at }, [])
handle (headers_done f) p =
    let pending = ltb 0 (length p.cur_header_field) || p.in_header_value in
    let q = finish_headers f (if pending then flush p else p) in
    (q, when p.on_headers_complete (headers_complete q.message))
handle (body at) p =
    if p.on_body
    then (p, body_part at ∷ [])
    else (record p { message = record p.message { body = p.message.body ++ at } }, [])
handle message_done p = (record p { message_complete = true }, when p.on_message_complete complete)

unfoldable pub handle_all : List Event → Parser → Parser × List Notice
handle_all [] p = (p, [])
handle_all (e ∷ es) p =
    let (q, notices) = handle e p in let (r, more) = handle_all es q in (r, notices ++ more)

-- The result of llhttp_execute; a paused upgrade gives the number of bytes consumed, where
-- llhttp_get_error_pos lies inside the input.
pub data Outcome : Type 0 where
  ok : Outcome
  upgrade_at : Option ℕ → Outcome
  error : ℕ → Outcome

-- feed; the Boolean is its result.
unfoldable pub feed : List Event → Outcome → List ℕ → Parser → Bool × Parser × List Notice
feed events outcome input p =
    let (q, notices) = handle_all events p in
    let after : Bool × Parser × List Notice = elim outcome [
      | ok ↦ (true, q, notices)
      | upgrade_at consumed ↦
          let r = record q {
            remaining_after_upgrade = elim consumed [
              | none ↦ q.remaining_after_upgrade
              | some n ↦ if leb n (length input) then drop n input else q.remaining_after_upgrade
            ];
          } in
          (false, r, notices ++ when r.on_paused_upgrade (paused_upgrade r.remaining_after_upgrade))
      | error code ↦
          (false, record q { had_error = true }, notices ++ when q.on_error (failed code))
    ] in
    if p.had_error then (false, p, []) else after
