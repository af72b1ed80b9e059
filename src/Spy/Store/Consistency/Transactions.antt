-- ===== src/Spy/Store/Consistency/Transactions.antt =====
-- Each transaction of src/spy/store.ts that succeeds leaves a consistent database consistent.
use rootcell.Prelude.{
  OnOk, OnOk-bind, OnOk-after, refl, Option, none, some, Bool-cases, Option-cases, inl, inr,
}
use rootcell.Spy.Records.{
  ProviderId, SpoolRequestEvent, SpoolResponseEvent, SpoolStreamChunkEvent, SpoolErrorEvent,
  SpoolDroppedEvent,
}
use rootcell.Spy.Store.Tables.{
  Db, http_row, block_row, usage_row, stream_event_row, raw_payload_row, stream_chunk_row, has_call,
}
use rootcell.Spy.Store.Tables.Calls.{
  set_response, update_response_call, set_error, update_error_call,
}
use rootcell.Spy.Store.Persist.{
  Platform, NormalizedProviderResponse, SpyProviderAdapter, persist_request, persist_response,
  write_response, mark_error, persist_error_event, persist_dropped_event,
  persist_stream_chunk_event,
}
use rootcell.Spy.Store.Consistency.{IsConsistent}
use rootcell.Spy.Store.Consistency.Statements.{
  replace_http_event-OnOk, replace_blocks-OnOk, replace_usage_records-OnOk,
  replace_stream_events-OnOk, replace_raw_payloads-OnOk, update_call-IsConsistent,
  upsert_pending_call-OnOk, upsert_chunk-OnOk, replace_derived_blocks-OnOk,
}

-- A result that may be put off.
abbrev pub OnSome : (Db → Type 0) → Option Db → Type 0
OnSome P none = Unit {0}
OnSome P (some db) = P db

module _ (platform : Platform) (adapters : ProviderId → SpyProviderAdapter) where
  pub persist_request-OnOk :
      (event : SpoolRequestEvent) (db : Db)
      → IsConsistent db
      → OnOk IsConsistent (persist_request platform adapters event db)
  unfolding persist_request
  persist_request-OnOk event db h =
      OnOk-after IsConsistent ((adapters event.http.provider).normalize_request event) _
        λ normalized.
          OnOk-bind IsConsistent IsConsistent _ _ (upsert_pending_call-OnOk normalized.call db h)
            λ called h1.
              OnOk-bind IsConsistent IsConsistent _ _ (replace_http_event-OnOk _ called h1)
                λ sent h2.
                  OnOk-bind IsConsistent IsConsistent _ _ (replace_blocks-OnOk _ _ _ sent h2)
                    λ blocked h3.
                      OnOk-bind IsConsistent IsConsistent _ _
                        (replace_raw_payloads-OnOk _ _ _ blocked h3) λ stored h4. h4

  write_response-OnOk :
      (event : SpoolResponseEvent) (normalized : NormalizedProviderResponse) (db : Db)
      → IsConsistent db
      → OnOk IsConsistent (write_response platform adapters event normalized db)
  unfolding write_response update_response_call
  write_response-OnOk event normalized db h =
      OnOk-bind IsConsistent IsConsistent _ _
        (replace_http_event-OnOk _ _ (
          update_call-IsConsistent normalized.call.id (set_response normalized.call) db (λ c. refl)
            h))
        λ sent h1.
          OnOk-bind IsConsistent IsConsistent _ _ (replace_derived_blocks-OnOk _ _ sent h1)
            λ derived h2.
              OnOk-bind IsConsistent IsConsistent _ _ (replace_blocks-OnOk _ _ _ derived h2)
                λ blocked h3.
                  OnOk-bind IsConsistent IsConsistent _ _
                    (replace_usage_records-OnOk _ _ blocked h3)
                    λ used h4.
                      OnOk-bind IsConsistent IsConsistent _ _
                        (replace_stream_events-OnOk _ _ used h4)
                        λ streamed h5.
                          OnOk-bind IsConsistent IsConsistent _ _
                            (replace_raw_payloads-OnOk _ _ _ streamed h5) λ stored h6. h6

  pub persist_response-OnOk :
      (event : SpoolResponseEvent) (db : Db)
      → IsConsistent db
      → OnOk (OnSome IsConsistent) (persist_response platform adapters event db)
  unfolding persist_response
  persist_response-OnOk event db h =
      let call_id = (adapters event.http.provider).call_id_for_flow event.http.flow_id in
      elim (Bool-cases (has_call db.calls call_id)) [
        | inr missing ↦ rw (persist_response, missing) tt
        | inl there ↦
            rw (persist_response, there)
              (OnOk-after (OnSome IsConsistent)
                ((adapters event.http.provider).normalize_response _) _
                λ normalized.
                  OnOk-bind IsConsistent (OnSome IsConsistent) _ _
                    (write_response-OnOk event normalized db h) λ written h1. h1)
      ]

  pub persist_stream_chunk_event-OnOk :
      (event : SpoolStreamChunkEvent) (db : Db)
      → IsConsistent db
      → OnOk (OnSome IsConsistent) (persist_stream_chunk_event platform adapters event db)
  unfolding persist_stream_chunk_event
  persist_stream_chunk_event-OnOk event db h =
      let call_id = (adapters event.http.provider).call_id_for_flow event.http.flow_id in
      elim (Bool-cases (has_call db.calls call_id)) [
        | inr missing ↦ rw (persist_stream_chunk_event, missing) tt
        | inl there ↦
            rw (persist_stream_chunk_event, there)
              (OnOk-bind IsConsistent (OnSome IsConsistent) _ _ (upsert_chunk-OnOk _ db h)
                λ captured h1. h1)
      ]

  mark_error-IsConsistent :
      (event : SpoolErrorEvent) (db : Db)
      → IsConsistent db
      → IsConsistent (mark_error platform adapters event db)
  unfolding mark_error update_error_call
  mark_error-IsConsistent event db h = elim (Option-cases event.flow_id) [
    | inl e ↦ rw (mark_error, e) h
    | inr (flow_id, e) ↦ elim (Option-cases event.provider) [
      | inl e' ↦ rw (mark_error, e, e') h
      | inr (provider, e') ↦
          elim (Bool-cases (has_call db.calls ((adapters provider).call_id_for_flow flow_id))) [
            | inr missing ↦ rw (mark_error, e, e', missing) h
            | inl there ↦
                rw (mark_error, e, e', there)
                  (update_call-IsConsistent _ (set_error event.ts flow_id) db (λ c. refl) h)
          ]
    ]
  ]

  pub persist_error_event-IsConsistent :
      (event : SpoolErrorEvent) (db : Db)
      → IsConsistent db
      → IsConsistent (persist_error_event platform adapters event db)
  unfolding persist_error_event
  persist_error_event-IsConsistent event db h = mark_error-IsConsistent event _ h

  pub persist_dropped_event-IsConsistent :
      (event : SpoolDroppedEvent) (db : Db)
      → IsConsistent db
      → IsConsistent (persist_dropped_event platform adapters event db)
  unfolding persist_dropped_event
  persist_dropped_event-IsConsistent event db h = h
