-- ===== src/AllSource/Worker/Divergence.antt =====
-- crates/rv2-allsource/src/workers.rs: where the worker and the fold on read differ.
use rust_v.Prelude.{
  String, ◌≡◌, inl, inr, refl, ap, ◌∙◌, Option, none, some, List, [], ◌∷◌, ◌++◌, All, arith,
  Bool-cases, Option-cases,
}
use rust_v.Prelude.Dict
use rust_v.Prelude.Dict.{get-empty}
use rust_v.Prelude.Text.{str_eq, str_eq_iff}
use rust_v.Events.Payload.{Items}
use rust_v.Events.{
  Uuid, DateTime, Formats, DomainEvent, post_created, post_deleted, post, stream, stream_id,
  stream_kind, aggregate_id,
}
use rust_v.ApiTypes.{PostView}
use rust_v.AllSource.{SdkEvent, decode_or_warn, fold_events}
use rust_v.AllSource.Folders.{post_folder}
use rust_v.AllSource.Posts.{decoded, fold_events-latch}
use rust_v.AllSource.Worker.{PostsReadModel, apply_post_event, run_worker}
use rust_v.AllSource.Worker.Step.{
  IsKeyed, IsAddressed, apply_post_event-get, apply_post_event-IsKeyed,
}
use rust_v.AllSource.Worker.Own.{of_stream, own, own-skip, own-cons}

module _ (F : Formats) (read_array : Items → Option DomainEvent) where
  run_worker-append :
      (state : PostsReadModel) (xs ys : List SdkEvent)
      → run_worker F read_array state (xs ++ ys)
        ≡ run_worker F read_array (run_worker F read_array state xs) ys
  unfolding run_worker
  run_worker-append state [] ys = refl
  run_worker-append state (x ∷ xs) ys =
      run_worker-append (apply_post_event F read_array state x) xs ys

  pub run_worker-IsKeyed :
      (state : PostsReadModel) (log : List SdkEvent)
      → All (IsAddressed F read_array) log
      → IsKeyed state
      → IsKeyed (run_worker F read_array state log)
  unfolding run_worker
  run_worker-IsKeyed state [] addressed keyed = keyed
  run_worker-IsKeyed state (event ∷ log) (a, addressed) keyed =
      run_worker-IsKeyed (apply_post_event F read_array state event) log addressed
        (apply_post_event-IsKeyed F read_array state event a keyed)

  pub IsKeyed-empty : IsKeyed Dict.empty
  IsKeyed-empty k v h = cc (get-empty {V = PostView} k)

  IsAddressed-of :
      (event : SdkEvent) (e : DomainEvent)
      → decode_or_warn F read_array event ≡ some e
      → event.entity_id ≡ stream_id F e
      → IsAddressed F read_array event
  IsAddressed-of event e d a f h = let same : e ≡ f = ground arith in a ∙ ap (stream_id F) same

  module _ (id : Uuid) where
    own-append :
        (xs ys : List SdkEvent)
        → own F read_array id (xs ++ ys) ≡ own F read_array id xs ++ own F read_array id ys
    own-append [] ys = unfold own of_stream decoded in refl
    own-append (x ∷ xs) ys = elim (Bool-cases (str_eq x.entity_id (stream F post id))) [
      | inr other ↦
          rw
            (
              own-skip F read_array id x (xs ++ ys) (inr other),
              own-skip F read_array id x xs (inr other),
            )
            (own-append xs ys)
      | inl same ↦ elim (Option-cases (decode_or_warn F read_array x)) [
        | inl bad ↦
            rw
              (
                own-skip F read_array id x (xs ++ ys) (inl bad),
                own-skip F read_array id x xs (inl bad),
              )
              (own-append xs ys)
        | inr (e, d) ↦
            rw
              (
                own-cons F read_array id x e (xs ++ ys) d same,
                own-cons F read_array id x e xs d same,
              )
              (ap (λ (es : List DomainEvent). e ∷ es) (own-append xs ys))
      ]
    ]

    -- Where a post's deletion is followed by another creation, the two differ: after any log in which
    -- each event is on its own stream, the worker holds the new post, and folding the stream on read
    -- yields none.
    pub worker-ne-fold_on_read :
        (log : List SdkEvent) (gone again : SdkEvent) (at at' : DateTime) (author_id : Uuid)
        (title content : String)
        → All (IsAddressed F read_array) log
        → gone.entity_id ≡ stream F post id
        → again.entity_id ≡ stream F post id
        → decode_or_warn F read_array gone ≡ some (post_deleted id at)
        → decode_or_warn F read_array again ≡ some (post_created id author_id title content at')
        → (Dict.get (run_worker F read_array Dict.empty (log ++ gone ∷ again ∷ [])) id
            ≡ some (record {
              id = id;
              author_id = author_id;
              title = title;
              content = content;
              created_at = at';
              updated_at = at';
            }))
          × (fold_events
                (post_folder F read_array)
                (of_stream F read_array id (log ++ gone ∷ again ∷ []))
              ≡ none)
    unfolding stream_id aggregate_id stream_kind run_worker own
    worker-ne-fold_on_read log gone again at at' author_id title content addressed ag aa dg da =
        let state = run_worker F read_array Dict.empty log in
        let keyed =
          apply_post_event-IsKeyed F read_array state gone
            (IsAddressed-of gone (post_deleted id at) dg ag)
            (run_worker-IsKeyed Dict.empty log addressed IsKeyed-empty) in
        (
          rw run_worker-append (
              ground (
                arith,
                apply_post_event-get F read_array (apply_post_event F read_array state gone) again
                    (post_created id author_id title content at') id keyed da refl aa,
              )),
          fold_events-latch F read_array (of_stream F read_array id (log ++ gone ∷ again ∷ []))
              (own F read_array id log) (own F read_array id (again ∷ [])) id at
              (own-append log (gone ∷ again ∷ [])
                ∙ ap (λ (es : List DomainEvent). own F read_array id log ++ es)
                    (own-cons F read_array id gone (post_deleted id at) (again ∷ []) dg
                      ((str_eq_iff gone.entity_id (stream F post id)).1 ag))),
        )
