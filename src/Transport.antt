-- ===== src/Transport.antt =====
-- src/curl_transport.cpp: the transport over libcurl. The library is a parameter: the calls of the two
-- callbacks that a transfer makes, and how it ends. The caller's callback has a state of its own.
pub mod HeaderLine
pub mod Streaming
pub mod Parser
use gemini_cpp.Base.{
  ℕ, zero, ◌/◌, Bool, true, false, not, ◌&&◌, ◌||◌, leb, ◌==◌, ◌+◌, List, [], ◌∷◌, ◌++◌, Option,
  none, some, is_empty, if◌then◌else◌, length, map,
}
use gemini_cpp.Base.Int.{ℤ, pos, negsuc, ltb_ℤ, max_ℤ}
use gemini_cpp.Base.Text.{Bytes, codes, equal, starts_with}
use gemini_cpp.Error.{Result, ok, err, ErrorCode, make_error, transport, timeout, cancelled}
use gemini_cpp.Wire.ApiError.{Headers}
use gemini_cpp.Client.{HttpRequest, HttpResponse}

-- `CURLcode`, as far as the program tells the codes apart.
pub data Code : Type 0 where
  code_ok write_error timed_out other_code : Code

abbrev pub is_ok : Code → Bool
is_ok code_ok = true
is_ok _ = false

abbrev pub is_timeout : Code → Bool
is_timeout timed_out = true
is_timeout _ = false

-- A callback that libcurl makes: a header line, or bytes of the body with the response code that
-- `CURLINFO_RESPONSE_CODE` gives then.
pub data CurlEvent : Type 0 where
  header : Bytes → CurlEvent
  body : ℤ → Bytes → CurlEvent

-- The end of a transfer: the response code, the error buffer and the text of `curl_easy_strerror`.
pub record Ending : Type 0 where
  pub code : Code
  pub status : ℤ
  pub error_buffer : Bytes
  pub error_text : Bytes

-- A transfer that runs to its end, and how it ends if a callback stops it, which is a write error.
pub record Exchange : Type 0 where
  pub events : List CurlEvent
  pub at_end : Ending
  pub status_at_stop : ℤ

-- The timeout options: a total deadline, or a stall of so many seconds.
pub data Limit : Type 0 where
  deadline_ms stall_seconds : ℤ → Limit

pub data Method : Type 0 where
  get : Method
  post : Bytes → Method
  custom : Bytes → Bytes → Method

pub record Setup : Type 0 where
  pub url : Bytes
  pub header_lines : List Bytes
  pub limit : Limit
  pub method : Method

-- libcurl: is there a handle, could a header line be added, and the transfer.
pub record Curl (W : Type 0) : Type 0 where
  pub handle : W → Bool × W
  pub append_header : Bytes → W → Bool × W
  pub transfer : Setup → W → Exchange × W

pub record Context (S : Type 0) : Type 0 where
  pub response : HttpResponse
  pub aborted : Bool
  pub caller : S

-- `headers[name] = value`. A map is a list here, whose order has no meaning.
unfoldable pub set_header : Bytes → Bytes → Headers → Headers
set_header name value [] = (name, value) ∷ []
set_header name value ((k, v) ∷ rest) =
    if equal k name then (k, value) ∷ rest else (k, v) ∷ set_header name value rest

-- `std::tolower` in the C locale.
abbrev pub to_lower : ℕ → ℕ
to_lower c = if leb b'A' c && leb c b'Z' then c + 32 else c

abbrev pub trim_left : Bytes → Bytes
trim_left [] = []
trim_left (c ∷ s) = let rest = trim_left s in if c == b' ' || c == 9 then rest else c ∷ s

abbrev pub trim_right : Bytes → Bytes
trim_right [] = []
trim_right (c ∷ s) =
    let rest = trim_right s in
    if is_empty rest && (c == 13 || c == 10 || c == b' ') then [] else c ∷ rest

-- The line up to its first colon and after it.
unfoldable pub split_name : Bytes → Option (Bytes × Bytes)
split_name [] = none
split_name (c ∷ s) =
    let rest = split_name s in
    if c == b':'
    then some ([], s)
    else elim rest [ none ↦ none | some (name, value) ↦ some (c ∷ name, value) ]

abbrev pub store_header : Option (Bytes × Bytes) → HttpResponse → HttpResponse
store_header none r = r
store_header (some (name, value)) r = record r {
  headers = set_header (map to_lower name) (trim_right (trim_left value)) r.headers;
}

-- `on_header`; it returns the number of bytes that it was given.
unfoldable pub on_header : Bytes → HttpResponse → HttpResponse
unfolding set_header split_name starts_with
on_header line r =
    if starts_with line (codes "HTTP/")
    then record r { headers = [] }
    else store_header (split_name line) r

abbrev pub is_success : ℤ → Bool
is_success status = not (ltb_ℤ status (pos 200)) && ltb_ℤ status (pos 300)

abbrev pub ChunkCallback : Type 0 → Type 0
ChunkCallback S = S → Bytes → Bool × S

abbrev pub stopped : ℤ → Ending
stopped status = record {
  code = write_error;
  status = status;
  error_buffer = [];
  error_text = codes "Failed writing received data to disk/application";
}

module _ {S : Type 0} where
  abbrev pub append_body : Bytes → Context S → Context S
  append_body s c = record c { response = record c.response { body = c.response.body ++ s } }

  abbrev pub after_chunk : ℕ → Bool × S → Context S → ℕ × Context S
  after_chunk n (true, k) c = (n, record c { caller = k })
  after_chunk n (false, k) c = (0, record c { caller = k; aborted = true })

  -- `on_body`: the number of bytes that are taken, which stops the transfer if it is another.
  unfoldable pub on_body : Option (ChunkCallback S) → ℤ → Bytes → Context S → ℕ × Context S
  on_body none status s c = (length s, append_body s c)
  on_body (some on_chunk) status s c =
      if is_success status
      then after_chunk (length s) (on_chunk c.caller s) c
      else (length s, append_body s c)

  -- One callback: does the transfer go on?
  unfoldable pub on_callback : Option (ChunkCallback S) → CurlEvent → Context S → Bool × Context S
  unfolding on_header on_body
  on_callback on_chunk (header line) c = (true, record c { response = on_header line c.response })
  on_callback on_chunk (body status s) c =
      let (n, c') = on_body on_chunk status s c in (n == length s, c')

  -- The next callback, or the end of a transfer that was stopped.
  abbrev pub after_callback : (Context S → Bool × Context S) → Bool × Context S → Bool × Context S
  after_callback again (true, c) = again c
  after_callback again (false, c) = (false, c)

  unfoldable pub run_events :
      Option (ChunkCallback S) → List CurlEvent → Context S → Bool × Context S
  unfolding on_callback
  run_events on_chunk [] c = (true, c)
  run_events on_chunk (e ∷ es) c =
      after_callback (run_events on_chunk es) (on_callback on_chunk e c)

-- The result of a transfer that ended so.
unfoldable pub transfer_result : Ending → Bool → HttpResponse → Result HttpResponse
transfer_result e aborted r =
    if not (is_ok e.code)
    then (if aborted
        then err (make_error cancelled (codes "request cancelled by caller"))
        else err (
            make_error (if is_timeout e.code then timeout else transport) (
              codes "curl: "
              ++ (if is_empty e.error_buffer then e.error_text else e.error_buffer))))
    else ok (record r { status = e.status })

abbrev pub empty_reply : HttpResponse
empty_reply = record { status = pos 0; headers = []; body = [] }

module _ {S : Type 0} where
  abbrev pub new_context : S → Context S
  new_context k = record { response = empty_reply; aborted = false; caller = k }

  abbrev pub finish_transfer : Exchange → Bool × Context S → Result HttpResponse × S
  finish_transfer x (true, c) = (transfer_result x.at_end c.aborted c.response, c.caller)
  finish_transfer x (false, c) =
      (transfer_result (stopped x.status_at_stop) c.aborted c.response, c.caller)

-- `timeout_ms / 1000`, which rounds towards zero, but at least a second.
abbrev pub stall_limit : ℤ → ℤ
stall_limit (pos n) = max_ℤ (pos 1) (pos (n / 1000))
stall_limit (negsuc n) = pos 1

unfoldable pub setup_of : HttpRequest → Bool → List Bytes → Setup
unfolding equal
setup_of request streaming lines = record {
  url = request.url;
  header_lines = lines;
  limit =
      if streaming
      then stall_seconds (stall_limit request.timeout)
      else deadline_ms request.timeout;
  method =
      if equal request.method (codes "GET")
      then get
      else if not (equal request.method (codes "POST"))
      then custom request.method request.body
      else post request.body;
}

abbrev pub print_header : Bytes × Bytes → Bytes
print_header (name, value) = name ++ (codes ": " ++ value)

module _ {W : Type 0} (L : Curl W) where
  -- The header lines are added one by one.
  unfoldable pub append_headers : List (Bytes × Bytes) → W → Bool × W
  append_headers [] w = (true, w)
  append_headers (h ∷ hs) w =
      let (done, w') = L.append_header (print_header h) w in
      elim done [ true ↦ append_headers hs w' | false ↦ (false, w') ]

  module _ {S : Type 0} where
    abbrev pub transfer_with :
        Option (ChunkCallback S) → HttpRequest → S → Bool × W → Result HttpResponse × S × W
    transfer_with on_chunk request k (false, w) =
        (err (make_error transport (codes "curl_slist_append failed")), k, w)
    transfer_with on_chunk request k (true, w) =
        let streaming : Bool = elim on_chunk [ none ↦ false | some _ ↦ true ] in
        let (x, w') =
          L.transfer (setup_of request streaming (map print_header request.headers)) w in
        let (r, k') = finish_transfer x (run_events on_chunk x.events (new_context k)) in
        (r, k', w')

    abbrev pub with_handle :
        Option (ChunkCallback S) → HttpRequest → S → Bool × W → Result HttpResponse × S × W
    with_handle on_chunk request k (false, w) =
        (err (make_error transport (codes "curl_easy_init failed")), k, w)
    with_handle on_chunk request k (true, w) =
        transfer_with on_chunk request k (append_headers request.headers w)

    -- `CurlTransport::perform`, with the state of the caller's callback.
    unfoldable pub perform :
        Option (ChunkCallback S) → HttpRequest → S → W → Result HttpResponse × S × W
    unfolding append_headers run_events transfer_result setup_of
    perform on_chunk request k w = with_handle on_chunk request k (L.handle w)
