-- ===== src/Message/Segments.antt =====
-- `messageTextSegments` of home/message.model.ts.
use zwei.Common.{
  ℕ, ◌≤◌, ◌≡◌, refl, sym, ◌∙◌, Option, none, some, List, [], ◌∷◌, ◌++◌, map, arith, ltb, leb,
  if◌then◌else◌, length, drop, slice, slice-append-drop, drop_all, ◌||◌, Bool-cases, inl, inr,
  ltb-false→le,
}
use mathlib.Core.List.{append_assoc, append-nil}
use zwei.Js.Text.{Text}
use zwei.Message.{
  Mention, Segment, plain, tagged, mentions_value, is_valid_message_mentions, segments_from,
  message_text_segments,
}
use zwei.Message.Validity.{AreMentions, is_valid_message_mentions_iff}

-- What a reader of the segments sees.
pub shown : List Segment → Text
shown [] = []
shown (s ∷ r) = s.text ++ shown r

-- The segments that are shown as mentions.
pub mentioned_texts : List Segment → List Text
mentioned_texts [] = []
mentioned_texts (s ∷ r) =
    let rest = mentioned_texts r in if s.mentioned then s.text ∷ rest else rest

shown-append : (a b : List Segment) → shown (a ++ b) ≡ shown a ++ shown b
unfolding shown
shown-append [] b = refl
shown-append (s ∷ a) b = rw (shown-append a b, append_assoc)

mentioned_texts-append :
    (a b : List Segment) → mentioned_texts (a ++ b) ≡ mentioned_texts a ++ mentioned_texts b
unfolding mentioned_texts
mentioned_texts-append [] b = refl
mentioned_texts-append (s ∷ a) b = ground (arith, mentioned_texts-append a b)

-- What the loop has pushed when it is done with a mention.
push : Text → ℕ → List Segment → Mention → List Segment
push body cursor segments m =
    (if ltb cursor m.start then segments ++ plain (slice body cursor m.start) ∷ [] else segments)
    ++ tagged (slice body m.start m.end) ∷ []

shown_snoc : (a : List Segment) (s : Segment) → shown (a ++ s ∷ []) ≡ shown a ++ s.text
unfolding shown
shown_snoc a s = rw (shown-append a (s ∷ []), append-nil)

shown-push :
    (body : Text) (cursor : ℕ) (segments : List Segment) (m : Mention)
    → cursor ≤ m.start
    → m.start ≤ m.end
    → shown (push body cursor segments m) ++ drop m.end body ≡ shown segments ++ drop cursor body
unfolding push
shown-push body cursor segments m h k = elim (Bool-cases (ltb cursor m.start)) [
  | inl gap ↦ rw gap (
      rw shown_snoc (
        rw shown_snoc (
          simp (
            append_assoc,
            slice-append-drop body m.start m.end k,
            slice-append-drop body cursor m.start h,
          ))))
  | inr touching ↦
      let e : m.start ≡ cursor = omega (arith, ltb-false→le cursor m.start touching) in
      rw touching
        (rw shown_snoc (simp (append_assoc, slice-append-drop body m.start m.end k) (rw e)))
]

-- The loop keeps what it has shown and what is left of the body.
shown-segments_from :
    (body : Text) (cursor : ℕ) (segments : List Segment) (ms : List Mention)
    → AreMentions body cursor ms
    → shown (segments_from body cursor segments ms) ≡ shown segments ++ drop cursor body
unfolding segments_from push
shown-segments_from body cursor segments [] h = elim (Bool-cases (ltb cursor (length body))) [
  | inl more ↦ rw more (shown_snoc segments (plain (drop cursor body)))
  | inr done ↦ elim (Bool-cases (leb (length segments) 0)) [
    | inl bare ↦ rw (done, bare) (shown_snoc segments (plain (drop cursor body)))
    | inr full ↦
        rw (done, full, drop_all cursor body (ltb-false→le cursor (length body) done))
          (sym (append-nil (shown segments)))
  ]
]
shown-segments_from body cursor segments (m ∷ ms) h =
    shown-segments_from body m.end (push body cursor segments m) ms h.1
    ∙ shown-push body cursor segments m h.0.behind (omega (arith, h.0.long))

-- Whatever the body and the mentions, valid or not, the segments show the body, all of it and in
-- order.
pub shown-message_text_segments :
    (body : Text) (mentions : Option (List Mention))
    → shown (message_text_segments body mentions) ≡ body
unfolding message_text_segments shown
shown-message_text_segments body none = append-nil body
shown-message_text_segments body (some ms) =
    elim (Bool-cases (is_valid_message_mentions (mentions_value ms) body)) [
      | inl valid ↦
          rw valid
            (shown-segments_from body 0 [] ms ((is_valid_message_mentions_iff body ms).0 valid).1)
      | inr refused ↦ rw refused (append-nil body)
    ]

mentioned_texts-push :
    (body : Text) (cursor : ℕ) (segments : List Segment) (m : Mention)
    → mentioned_texts (push body cursor segments m)
      ≡ mentioned_texts segments ++ slice body m.start m.end ∷ []
unfolding push mentioned_texts
mentioned_texts-push body cursor segments m = elim (Bool-cases (ltb cursor m.start)) [
  | inl gap ↦ rw gap (rw mentioned_texts-append (rw mentioned_texts-append (rw append-nil)))
  | inr touching ↦
      rw touching (mentioned_texts-append segments (tagged (slice body m.start m.end) ∷ []))
]

abbrev pub span : Text → Mention → Text
span body m = slice body m.start m.end

mentioned_texts-segments_from :
    (body : Text) (cursor : ℕ) (segments : List Segment) (ms : List Mention)
    → mentioned_texts (segments_from body cursor segments ms)
      ≡ mentioned_texts segments ++ map (span body) ms
unfolding segments_from push mentioned_texts
mentioned_texts-segments_from body cursor segments [] =
    elim (Bool-cases (ltb cursor (length body) || leb (length segments) 0)) [
      | inl more ↦ rw more (mentioned_texts-append segments (plain (drop cursor body) ∷ []))
      | inr done ↦ rw done (sym (append-nil (mentioned_texts segments)))
    ]
mentioned_texts-segments_from body cursor segments (m ∷ ms) =
    mentioned_texts-segments_from body m.end (push body cursor segments m) ms
    ∙ rw (mentioned_texts-push body cursor segments m)
        (append_assoc (mentioned_texts segments) (span body m ∷ []) (map (span body) ms))

-- The segments marked as mentions are the spans of the mentions, in order, if the mentions are
-- valid for the body; otherwise no segment is marked.
pub mentioned_texts-message_text_segments :
    (body : Text) (ms : List Mention)
    → mentioned_texts (message_text_segments body (some ms))
      ≡ (if is_valid_message_mentions (mentions_value ms) body then map (span body) ms else [])
unfolding message_text_segments mentioned_texts
mentioned_texts-message_text_segments body ms =
    elim (Bool-cases (is_valid_message_mentions (mentions_value ms) body)) [
      | inl valid ↦ rw valid (mentioned_texts-segments_from body 0 [] ms)
      | inr refused ↦ rw refused
    ]
