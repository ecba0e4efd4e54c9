-- ===== src/Event/Resume.antt =====
-- A client that reconnects goes on with the message after the last one that it received.
use im_manager.Base.{
  ℕ, suc, ◌+◌, ◌%◌, ◌^◌, ◌<◌, ◌≡◌, sym, ap, ◌∙◌, String, List, [], ◌∷◌, arith, string_eq,
}
use im_manager.Base.Decimal.{format_int}
use im_manager.Base.Decimal.Laws.{parse_int-format_int, format_int-nonempty}
use im_manager.Errdef.{errorf, ◌>>=◌, ok, err, ok-injective, >>=-eq-ok}
use im_manager.Event.{Message, SseEvent, offset, compute_offset_spec, kind_of, map_message_to_event}

compute_offset_spec-format_int :
    (n : ℕ) → n < 2 ^ 63 → compute_offset_spec (format_int n) ≡ ok (offset ((n + 1) % 2 ^ 64))
unfolding compute_offset_spec
compute_offset_spec-format_int n small =
    ground (arith, format_int-nonempty n small, parse_int-format_int n small)

event-id :
    (retry at : ℕ) (m : Message) (e : SseEvent)
    → map_message_to_event retry at m ≡ ok e
    → e.id ≡ format_int at
unfolding map_message_to_event
event-id retry at m e h = made m.data' h
  where
    made :
        (ds : List String)
        → elim ds [
          | [] ↦ err (errorf "received no data")
          | d ∷ _ ↦ kind_of m.application_properties >>= λ kind.
              ok (record { id = format_int at; data' = d; retry = retry; event = kind })
        ]
          ≡ ok e
        → e.id ≡ format_int at
    made [] h = cc
    made (d ∷ ds) h =
        let (kind, _, same) = >>=-eq-ok (kind_of m.application_properties) _ h in
        ap (λ t. t.id) (sym (ok-injective same))

-- The id of the event that a message at an offset becomes, sent back as `Last-Event-ID`, lets the
-- stream go on at the offset after it. The largest offset is excluded.
pub compute_offset_spec-map_message_to_event :
    (retry at : ℕ) (m : Message) (e : SseEvent)
    → suc at < 2 ^ 63
    → map_message_to_event retry at m ≡ ok e
    → compute_offset_spec e.id ≡ ok (offset (suc at))
compute_offset_spec-map_message_to_event retry at m e small h =
    ap compute_offset_spec (event-id retry at m e h)
    ∙ compute_offset_spec-format_int at (omega arith)
    ∙ ap (λ n. ok (offset n)) (omega arith)
