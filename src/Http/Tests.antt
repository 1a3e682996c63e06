-- ===== src/Http/Tests.antt =====
-- The parser on a header in pieces, and lookups in its result.
use rtcvpn.Common.{◌≡◌, List, [], ◌∷◌, ◌++◌, true, false, none, codes}
use mathlib.Core.List.{flatten}
use rtcvpn.Http.{Message, request, response}
use rtcvpn.Http.Serialize.{empty_message}
use rtcvpn.Http.Parser.{Parser, Flags, message_begin, headers_done}
use rtcvpn.Http.Fragments.{Pieces, events_of, after, headers_of_pieces}

abbrev parser : Parser
parser = record {
  type = request;
  message = empty_message;
  cur_header_field = [];
  cur_header_value = [];
  in_header_value = false;
  cur_url = [];
  cur_status = [];
  message_complete = false;
  had_error = false;
  remaining_after_upgrade = [];
  is_chunked = false;
  on_headers_complete = true;
  on_body = true;
  on_message_complete = true;
  on_error = true;
  on_paused_upgrade = true;
}

abbrev flags : Flags
flags = record {
  http_major = 1;
  http_minor = 1;
  method_name = codes "GET";
  is_connect = false;
  status_code = 0;
  chunked = false;
  upgrade = false;
  connection_keep_alive = false;
  connection_close = false;
  keep_alive = true;
  content_length = none;
}

abbrev pieces : List Pieces
pieces =
    record {
      name_first = codes "Ho";
      name_rest = codes "st" ∷ [];
      value_first = codes "a.";
      value_rest = codes "b" ∷ [];
    }
    ∷ []

headers_of_pieces_example :
    (after (message_begin ∷ events_of pieces ++ headers_done flags ∷ []) parser).message.headers
    ≡ record { name = codes "Host"; value = codes "a.b" } ∷ []
unfolding flatten
headers_of_pieces_example = headers_of_pieces pieces flags parser

-- A response whose Connection header lists one of the others.
abbrev answer : Message
answer = record empty_message {
  type = response;
  headers =
      record { name = codes "connection"; value = codes "x-secret" }
      ∷ record { name = codes "X-Secret"; value = codes "1" }
      ∷ record { name = codes "content-length"; value = codes "7" }
      ∷ record { name = codes "Host"; value = codes "h" }
      ∷ [];
  body = codes "ab";
}
