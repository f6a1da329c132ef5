-- ===== src/Transport/Streaming.antt =====
-- src/curl_transport.cpp: a streaming transfer hands over the chunks as the client's interface says.
use gemini_cpp.Base.{
  ℕ, Bool, true, false, not, List, [], ◌∷◌, ◌++◌, some, is_empty, if◌then◌else◌, length, map, ◌≡◌,
  refl, sym, subst, ap, arith, ◌==◌,
}
use gemini_cpp.Base.Text.{Bytes, codes}
use gemini_cpp.Error.{Result, err, make_error, cancelled, transport}
use gemini_cpp.Client.{HttpRequest, HttpResponse, Streamed}
use gemini_cpp.Transport.{
  CurlEvent, header, body, Exchange, Curl, Context, ChunkCallback, on_header, run_events,
  transfer_result, finish_transfer, after_callback, append_body, is_success, after_chunk, perform,
  append_headers, setup_of, print_header, new_context, empty_reply, transfer_with, with_handle,
}

-- The chunks of the body that came with a status of success, in order.
abbrev pub chunks_of : List CurlEvent → List Bytes
chunks_of [] = []
chunks_of (header line ∷ es) = chunks_of es
chunks_of (body status s ∷ es) =
    let rest = chunks_of es in if is_success status then s ∷ rest else rest

-- The response that all events leave, without the chunks that were handed over.
abbrev pub respond : List CurlEvent → HttpResponse → HttpResponse
respond [] r = r
respond (header line ∷ es) r = respond es (on_header line r)
respond (body status s ∷ es) r =
    respond es (if is_success status then r else record r { body = r.body ++ s })

same_length : (n : ℕ) → (n == n) ≡ true
same_length n = ground arith

not_empty : (s : Bytes) → is_empty s ≡ false → (0 == length s) ≡ false
not_empty [] h = absurd (ground arith)
not_empty (c ∷ s) h = ground arith

-- A callback that, from a good state, answers true for no bytes at all; and its state stays good while it
-- answers true.
pub record IsSteady {S : Type 0} (on_chunk : ChunkCallback S) (Good : S → Type 0) : Type 0 where
  pub keeps : (k : S) (s : Bytes) → Good k → (on_chunk k s).0 ≡ true → Good (on_chunk k s).1
  pub goes_on : (k : S) → Good k → (on_chunk k []).0 ≡ true

refused-not_empty :
    {S : Type 0} (on_chunk : ChunkCallback S) (Good : S → Type 0)
    → IsSteady on_chunk Good
    → (k : S) (s : Bytes) → Good k
    → (on_chunk k s).0 ≡ false
    → is_empty s ≡ false
refused-not_empty on_chunk Good steady k [] g h = absurd (cc (h, steady.goes_on k g))
refused-not_empty on_chunk Good steady k (c ∷ s) g h = refl

module _ {S : Type 0} (on_chunk : ChunkCallback S) where
  -- An answer of the callback: a next chunk, or the end.
  abbrev pub on_answer : (S → S × Bool) → Bool × S → S × Bool
  on_answer again (true, k) = again k
  on_answer again (false, k) = (k, false)

  -- The chunks are handed over until the callback answers false; did it always answer true?
  unfoldable pub hand_over : List Bytes → S → S × Bool
  hand_over [] k = (k, true)
  hand_over (s ∷ ss) k = on_answer (hand_over ss) (on_chunk k s)

  -- What is left when the chunks were handed over, with this result of it.
  abbrev Ran : S × Bool → HttpResponse → Bool × Context S → Type 0
  Ran handed r out =
      (out.0 ≡ handed.1)
      × (out.1.caller ≡ handed.0)
      × (out.1.aborted ≡ not out.0)
      × (out.0 ≡ true → out.1.response ≡ r)

  module _ (Good : S → Type 0) (steady : IsSteady on_chunk Good) where
    answer-Ran :
        (again : Context S → Bool × Context S) (s : Bytes) (ss : List Bytes) (r : HttpResponse)
        (c : Context S) (answer : Bool × S)
        → (answer.0 ≡ false → is_empty s ≡ false)
        → c.aborted ≡ false
        → (answer.0 ≡ true → Ran (hand_over ss answer.1) r (again (record c { caller = answer.1 })))
        → let (n, c') = after_chunk (length s) answer c in
          Ran (on_answer (hand_over ss) answer) r (after_callback again (n == length s, c'))
    answer-Ran again s ss r c (true, k) full a ih =
        subst (λ b. Ran (hand_over ss k) r (after_callback again (b, record c { caller = k })))
          (sym (same_length (length s))) (ih refl)
    answer-Ran again s ss r c (false, k) full a ih =
        subst
          (λ b.
            Ran (k, false) r (after_callback again (b, record c { caller = k; aborted = true })))
          (sym (not_empty s (full refl))) (refl, refl, refl, λ e. cc)

    body-Ran :
        (b : Bool) (es : List CurlEvent) (s : Bytes) (c : Context S)
        → Good c.caller
        → c.aborted ≡ false
        → ((d : Context S)
            → Good d.caller
            → d.aborted ≡ false
            → Ran
                (hand_over (chunks_of es) d.caller)
                (respond es d.response)
                (run_events (some on_chunk) es d))
        → let (n, c') =
            if b
            then after_chunk (length s) (on_chunk c.caller s) c
            else (length s, append_body s c) in
          Ran
            (hand_over (if b then s ∷ chunks_of es else chunks_of es) c.caller)
            (respond es
              (if b then c.response else record c.response { body = c.response.body ++ s }))
            (after_callback (run_events (some on_chunk) es) (n == length s, c'))
    unfolding hand_over
    body-Ran true es s c g a ih =
        answer-Ran (run_events (some on_chunk) es) s (chunks_of es) (respond es c.response) c
          (on_chunk c.caller s) (refused-not_empty on_chunk Good steady c.caller s g) a
          (λ e. ih (record c { caller = (on_chunk c.caller s).1 }) (steady.keeps c.caller s g e) a)
    body-Ran false es s c g a ih =
        subst
          (λ b.
            Ran (hand_over (chunks_of es) c.caller)
              (respond es (record c.response { body = c.response.body ++ s }))
              (after_callback (run_events (some on_chunk) es) (b, append_body s c)))
          (sym (same_length (length s))) (ih (append_body s c) g a)

    run_events-Ran :
        (es : List CurlEvent) (c : Context S)
        → Good c.caller
        → c.aborted ≡ false
        → Ran
            (hand_over (chunks_of es) c.caller)
            (respond es c.response)
            (run_events (some on_chunk) es c)
    unfolding run_events hand_over
    run_events-Ran [] c g a = (refl, refl, a, λ _. refl)
    run_events-Ran (header line ∷ es) c g a =
        run_events-Ran es (record c { response = on_header line c.response }) g a
    run_events-Ran (body status s ∷ es) c g a =
        body-Ran (is_success status) es s c g a (λ d h e. run_events-Ran es d h e)

  finish_transfer-Ran :
      (x : Exchange) (r : HttpResponse) (handed : S × Bool) (out : Bool × Context S)
      → Ran handed r out
      → finish_transfer x out ≡ (
        (if handed.1
            then transfer_result x.at_end false r
            else err (make_error cancelled (codes "request cancelled by caller"))),
        handed.0,
      )
  unfolding transfer_result
  finish_transfer-Ran x r (k, true) (true, c) h = cc (h.1, h.2, h.3 refl)
  finish_transfer-Ran x r (k, true) (false, c) h = absurd (ground arith)
  finish_transfer-Ran x r (k, false) (true, c) h = absurd (ground arith)
  finish_transfer-Ran x r (k, false) (false, c) h = rw (h.2, h.1) refl

-- The streamed reply of a transfer, as the client sees it.
abbrev pub streamed_of : Exchange → Streamed
streamed_of x = record {
  chunks = chunks_of x.events;
  completed = transfer_result x.at_end false (respond x.events empty_reply);
  cancelled = err (make_error cancelled (codes "request cancelled by caller"));
}

-- A request that failed before the transfer.
abbrev pub failed_reply : Bytes → Streamed
failed_reply text = record {
  chunks = [];
  completed = err (make_error transport text);
  cancelled = err (make_error transport text);
}

module _ {W : Type 0} (L : Curl W) (request : HttpRequest) where
  abbrev with_lines : Bool × W → Streamed × W
  with_lines (false, w) = (failed_reply (codes "curl_slist_append failed"), w)
  with_lines (true, w) =
      let (x, w') = L.transfer (setup_of request true (map print_header request.headers)) w in
      (streamed_of x, w')

  abbrev with_curl : Bool × W → Streamed × W
  with_curl (false, w) = (failed_reply (codes "curl_easy_init failed"), w)
  with_curl (true, w) = with_lines (append_headers L request.headers w)

  -- The reply of the transport in the form of `Host.send_streaming`.
  unfoldable pub send_streaming : W → Streamed × W
  send_streaming w = with_curl (L.handle w)

  module _ {S : Type 0} (on_chunk : ChunkCallback S) where
    -- What a caller of that interface sees.
    abbrev pub deliver : S → Streamed × W → Result HttpResponse × S × W
    deliver k (reply, w) =
        let (k', all) = hand_over on_chunk reply.chunks k in
        ((if all then reply.completed else reply.cancelled), k', w)

    module _ (Good : S → Type 0) (steady : IsSteady on_chunk Good) where
      lines-deliver :
          (k : S) (lines : Bool × W)
          → Good k
          → transfer_with L (some on_chunk) request k lines ≡ deliver k (with_lines lines)
      unfolding hand_over
      lines-deliver k (false, w) g = refl
      lines-deliver k (true, w) g =
          let t = setup_of request true (map print_header request.headers) in
          let x = (L.transfer t w).0 in
          ap (λ (r : Result HttpResponse × S). (r.0, r.1, (L.transfer t w).1))
            (finish_transfer-Ran on_chunk x (respond x.events empty_reply) _ _
              (run_events-Ran on_chunk Good steady x.events (new_context k) g refl))

      curl-deliver :
          (k : S) (handle : Bool × W)
          → Good k
          → with_handle L (some on_chunk) request k handle ≡ deliver k (with_curl handle)
      unfolding hand_over
      curl-deliver k (false, w) g = refl
      curl-deliver k (true, w) g = lines-deliver k (append_headers L request.headers w) g

      -- For a callback that answers true for no bytes at all, from any state that it can come to by answering
      -- true, a streaming request is what the client's interface promises: the chunks of a successful
      -- body, empty ones too, are handed over in order until the callback answers false, which cancels the
      -- request; if it never does, the result is the one that the transfer ends with.
      pub perform-deliver :
          (k : S) (w : W)
          → Good k
          → perform L (some on_chunk) request k w ≡ deliver k (send_streaming w)
      unfolding perform send_streaming hand_over
      perform-deliver k w g = curl-deliver k (L.handle w) g
