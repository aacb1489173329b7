-- ===== src/GroupCall/Peer/Examples.antt =====
-- Runs of a peer of home/group-call-facade.service.ts.
use zwei.Common.{◌≡◌, refl, ℕ, true, false, none, some, [], ◌∷◌, ◌++◌, length, All, arith}
use zwei.Js.Text.{Text, codes}
use zwei.Js.Value.{Value, obj, field, no_fields, str}
use zwei.Ice.Candidate.{Identity, Candidate, absent, present}
use zwei.Ice.Generations.{matches_ice_generation, is_generation_of}
use zwei.GroupCall.Peer.{
  confirm_ice_recovery, Peer, Waiting, Connection, new_peer, flush_begins, flush_next, expire,
  is_unambiguous, filter, splice_out, remove_timer, drop_last, keep_unresolved, add_ice_candidate,
  record_replacement_candidate,
}
use zwei.GroupCall.Peer.Steps.{
  perform, Reach, joins, then_does, sets_answer, queues, hears_candidate,
}
use zwei.GroupCall.Peer.Steps.Bounds.{Reach-Bounded_peer}
use zwei.GroupCall.Peer.Steps.Recovery.{Bounded}
use zwei.GroupCall.Peer.Steps.Added.{added_is_fit}
use zwei.GroupCall.Peer.Steps.Allowed.{AddsFit}
use zwei.GroupCall.Peer.Steps.Flush.{
  IsClear, Distinct, flush_all, push_all, is_unknown, is_installed, flush_all_lem,
}

abbrev live : Connection
live = record { is_connected = true; stable = true }

abbrev line : Text
line = codes "candidate:1 1 udp 2122 10.0.0.1 50000 typ host"

abbrev raw : Value
raw = obj (
    field (codes "candidate") (str line) (
      field (codes "sdpMid") (str (codes "0"))
        (field (codes "usernameFragment") (str (codes "frag")) no_fields)))

abbrev sdp : Text
sdp =
    codes "m=audio 9"
    ++ 10 ∷ codes "a=mid:0"
    ++ 10 ∷ codes "a=ice-ufrag:frag"
    ++ 10 ∷ codes "a=ice-pwd:secret"
    ++ 10 ∷ []

-- A peer whose answer is set, and whose first candidate is queued.
abbrev answered : Peer
answered = perform queues (perform (sets_answer sdp) new_peer)

answered-Reach : Reach answered
answered-Reach = then_does queues (then_does (sets_answer sdp) joins)

added_is_fit_example : AddsFit answered (perform (hears_candidate live false true 1 raw) answered)
added_is_fit_example = added_is_fit answered-Reach (hears_candidate live false true 1 raw)

Reach-Bounded_peer_example : Bounded answered
Reach-Bounded_peer_example = Reach-Bounded_peer answered-Reach

abbrev of_fragment : Text → Identity
of_fragment ufrag = record { mid = some (codes "0"); index = none; ufrag = ufrag }

abbrev host : Candidate
host = record {
  line = line;
  sdp_mid = present (codes "0");
  sdp_m_line_index = absent;
  username_fragment = absent;
}

abbrev waiting : ℕ → Text → Waiting
waiting timer ufrag = record { candidate = host; identity = of_fragment ufrag; timer = timer }

-- One candidate of the generation in use, and one of a generation to come.
abbrev two : Peer
two = record new_peer {
  current_ice =
      (record { mid = codes "0"; index = 0; ufrag = codes "frag"; password = codes "secret" }) ∷ [];
  candidates = waiting 1 (codes "frag") ∷ waiting 2 (codes "later") ∷ [];
}

two-IsClear : All (IsClear live two.current_ice two.pending_ice two.retired_ice) two.candidates
unfolding is_unambiguous matches_ice_generation is_generation_of
two-IsClear = ((refl, λ e. cc), ((refl, λ e. refl), tt))

two-Distinct : Distinct two.candidates
two-Distinct = ((λ e. omega arith, tt), (tt, tt))

flush_all_lem_example :
    ((flush_all live (length two.candidates) (flush_begins two)).candidates
      ≡ filter (is_unknown live two.current_ice two.pending_ice two.retired_ice) two.candidates)
    × ((flush_all live (length two.candidates) (flush_begins two)).added
        ≡ push_all
            (filter
              (is_installed live two.current_ice two.pending_ice two.retired_ice)
              two.candidates)
            two.added)
flush_all_lem_example = flush_all_lem live two two-IsClear two-Distinct

-- A candidate whose timer fires while the loop waits is still in the loop's copy: its round takes the
-- last candidate out in its place.
abbrev three : Peer
three = record two {
  candidates = waiting 1 (codes "frag") ∷ waiting 2 (codes "frag") ∷ waiting 3 (codes "later") ∷ [];
}

loses_another :
    (flush_next live true (expire live 2 (flush_next live true (flush_begins three)))).candidates
    ≡ []
unfolding flush_begins flush_next expire splice_out remove_timer drop_last keep_unresolved
    add_ice_candidate record_replacement_candidate confirm_ice_recovery is_unambiguous
    matches_ice_generation is_generation_of
loses_another = refl
