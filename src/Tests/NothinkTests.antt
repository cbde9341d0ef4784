-- ===== src/Tests/NothinkTests.antt =====
-- The unit tests of nothink.rs, and the theorems about it at concrete inputs.
use localx_llama.Prelude.{false, some, List, [], ◌∷◌, ◌≡◌, refl, leb→le}
use localx_llama.Nothink.Bounds.{IsBounded, push-IsBounded}
use localx_llama.Text.{Text, codes, concat, split_once, strip_prefix, byte_len}
use localx_llama.Nothink.OneShot.{strip_think}
use localx_llama.Nothink.Stripper.{ThinkStripper, new, strip_stream, push, emit_safe_prefix}
use localx_llama.Nothink.Strips.{Strips, strip_think-Strips}
use localx_llama.Nothink.Streaming.{strip_stream-strip_think}

strip_think_runs :
    (strip_think (codes "a<think>x</think>b") ≡ some (codes "ab"))
    × (strip_think (codes "open<think>never closed") ≡ some (codes "opennever closed"))
    × (strip_think (codes "<think>a</think><think>b</think>tail") ≡ some (codes "tail"))
unfolding strip_think split_once strip_prefix byte_len
strip_think_runs = (refl, refl, refl)

-- a tag that is cut in two
abbrev cut_tag : List Text
cut_tag = codes "he<th" ∷ codes "ink>sec" ∷ codes "ret</thi" ∷ codes "nk>llo" ∷ []

strip_stream_runs : strip_stream cut_tag ≡ some (codes "hello")
unfolding strip_stream push split_once strip_prefix byte_len emit_safe_prefix
strip_stream_runs = refl

strip_stream-strip_think_example : strip_stream cut_tag ≡ strip_think (concat cut_tag)
strip_stream-strip_think_example =
    strip_stream-strip_think cut_tag (unfold byte_len in leb→le _ _ refl)

push-IsBounded_example :
    (o : Text) × (s' : ThinkStripper) × (push (codes "a<think>b<thi") new ≡ some (o, s'))
    × IsBounded s'
push-IsBounded_example = push-IsBounded (codes "a<think>b<thi") new

strip_think-Strips_example :
    (o : Text) × (strip_think (codes "a<think>x</think>b") ≡ some o)
    × Strips false (codes "a<think>x</think>b") o
strip_think-Strips_example = strip_think-Strips (codes "a<think>x</think>b")
