-- ===== src/Events/Streams.antt =====
-- crates/rv2-events/src/lib.rs: `stream` and `parse_stream` are inverse to one another.
use Prim.Native.String
use text.Mathlib.TextLemmas.{nil-append, cons-append}
use rust_v.Prelude.{String, ◌≡◌, refl, ap, sym, ◌∙◌, Option, some, arith}
use rust_v.Prelude.Text.{split_once, contains_char}
use rust_v.Prelude.Text.Parts.{split_once-append}
use rust_v.Events.{Uuid, Formats, StreamKind, user, post, prefix, stream, parse_stream, kind_of}

colon-append : (s : String) → String.◌++◌ ":" s ≡ String.◌∷◌ ":" s
colon-append s = cons-append ":" "" s ∙ ap (λ t. String.◌∷◌ ":" t) (nil-append s)

module _ (F : Formats) where
  pub prefix-split_once :
      (k : StreamKind) (id : Uuid)
      → split_once b':' (stream F k id) ≡ some (prefix k, F.show_uuid id)
  unfolding stream contains_char
  prefix-split_once user id =
      rw colon-append (split_once-append b':' ":" "user" (F.show_uuid id) refl refl)
  prefix-split_once post id =
      rw colon-append (split_once-append b':' ":" "post" (F.show_uuid id) refl refl)

  kind_of-prefix : (k : StreamKind) → kind_of (prefix k) ≡ some k
  unfolding kind_of prefix
  kind_of-prefix user = refl
  kind_of-prefix post = refl

  -- What `stream` builds, `parse_stream` splits into the same kind and id.
  parse_stream-stream : (k : StreamKind) (id : Uuid) → parse_stream F (stream F k id) ≡ some (k, id)
  unfolding parse_stream
  parse_stream-stream k id = rw (prefix-split_once, kind_of-prefix, F.read-show_uuid) refl

  pub stream_inj :
      (k k' : StreamKind) (id id' : Uuid) → stream F k id ≡ stream F k' id' → (k ≡ k') × (id ≡ id')
  stream_inj k k' id id' e =
      let p : ◌≡◌ {A = Option (StreamKind × Uuid)} (some (k, id)) (some (k', id')) =
        sym (parse_stream-stream k id) ∙ ap (parse_stream F) e ∙ parse_stream-stream k' id' in
      (ground (arith, p), ground (arith, p))
