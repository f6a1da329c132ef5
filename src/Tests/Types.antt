-- ===== src/Tests/Types.antt =====
-- src/types.cpp on small streams.
use gemini_cpp.Base.{Bool, true, false, List, [], ◌∷◌, ◌≡◌, refl}
use gemini_cpp.Base.Int.{ℤ, pos}
use gemini_cpp.Base.Text.{Bytes, codes}
use gemini_cpp.Types.{
  model, text, call, Part, GenerateResponse, empty_response, merge, append_part, append_parts, glue,
  absorb, merge_candidate, merge_candidates, response_text, parts_text,
}
use gemini_cpp.Types.Merge.{
  stream_from, at_index, all_in_stream, text_in, calls_in, stream_from_views,
}
use gemini_cpp.Types.Compact.{IsAggregate, merge-IsAggregate}

abbrev piece : Bytes → Bool → Bytes → Part ℤ
piece s thought signature = record {
  value = text s;
  thought = thought;
  thought_signature = signature;
}

abbrev tool_call : Part ℤ
tool_call = record {
  value = call (record { name = codes "f"; args = pos 1; id = [] });
  thought = false;
  thought_signature = codes "sig";
}

abbrev chunk : List (Part ℤ) → Bytes → GenerateResponse ℤ
chunk parts finish = record empty_response {
  candidates =
      record {
        content = record { role = model; parts = parts };
        finish_reason = finish;
        index = pos 0;
      }
      ∷ [];
}

abbrev chunks : List (GenerateResponse ℤ)
chunks =
    chunk (piece (codes "Hel") false [] ∷ []) []
    ∷ chunk (piece (codes "hm") true [] ∷ piece (codes "lo") false [] ∷ []) []
    ∷ chunk (tool_call ∷ []) (codes "STOP")
    ∷ []

stream_from-chunks : response_text (stream_from empty_response chunks).candidates ≡ codes "Hello"
unfolding stream_from merge merge_candidates merge_candidate absorb append_parts append_part glue
    response_text parts_text
stream_from-chunks = refl

stream_from_views_example :
    (at_index text_in (pos 0) (stream_from empty_response chunks).candidates
      ≡ all_in_stream text_in (pos 0) chunks)
    × (at_index calls_in (pos 0) (stream_from empty_response chunks).candidates
        ≡ all_in_stream calls_in (pos 0) chunks)
stream_from_views_example = stream_from_views (pos 0) chunks

merge-IsAggregate_example :
    IsAggregate
      (merge
        (chunk (piece (codes "Hel") false [] ∷ []) [])
        (chunk (piece (codes "lo") false [] ∷ []) (codes "STOP"))).candidates
merge-IsAggregate_example =
    merge-IsAggregate (chunk (piece (codes "Hel") false [] ∷ []) [])
      (chunk (piece (codes "lo") false [] ∷ []) (codes "STOP")) (tt, tt, tt)
