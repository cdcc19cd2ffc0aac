-- ===== src/Detect/Talkers.antt =====
-- The rule on new talkers reports each pair of hosts once.
use pyscan.Prelude.{
  ◌≡◌, refl, sym, ap, ◌∙◌, inl, inr, true, List, [], ◌∷◌, Text, text_eq_refl, Bool-cases,
}
use mathlib.Core.Path.{ap₂}
use pyscan.Detect.Rules.{new_talker, contains_pair}
use pyscan.Detect.State.{Detector, one_alert, unauthorised, raise_alert, show_host}
use pyscan.Packet.Transport.{Packet}

contains_pair_refl :
    (p : Text × Text) (rest : List (Text × Text)) → contains_pair p (p ∷ rest) ≡ true
unfolding contains_pair
contains_pair_refl p rest = rw (text_eq_refl p.0) (rw (text_eq_refl p.1) refl)

module _ {T : Type 0} where
  -- The rule has nothing to report, or it remembers the pair.
  new_talker-remembers :
      (d : Detector) (pkt : Packet T) (protocol : Text)
      → unauthorised d.baseline pkt.src ≡ true
      → contains_pair
          (show_host pkt.src, show_host pkt.dst)
          (new_talker d pkt protocol).0.seen_talkers
        ≡ true
  unfolding new_talker one_alert raise_alert
  new_talker-remembers d pkt protocol u =
      elim (Bool-cases (contains_pair (show_host pkt.src, show_host pkt.dst) d.seen_talkers)) [
        | inl old ↦ rw u (rw old old)
        | inr new ↦ rw u (rw new (contains_pair_refl _ d.seen_talkers))
      ]

  -- Behind a packet that the rule has seen, in every later state with the same baseline and the
  -- same pairs remembered, another packet between the same hosts changes nothing and raises no
  -- alert of a new talker, whatever the two protocols are.
  pub new_talker_once :
      (d later : Detector) (pkt next : Packet T) (protocol other : Text)
      → later.baseline ≡ d.baseline
      → later.seen_talkers ≡ (new_talker d pkt protocol).0.seen_talkers
      → next.src ≡ pkt.src
      → next.dst ≡ pkt.dst
      → new_talker later next other ≡ (later, [])
  new_talker_once d later pkt next protocol other b s src dst =
      elim (Bool-cases (unauthorised later.baseline next.src)) [
        | inl u ↦
            let hostile : unauthorised d.baseline pkt.src ≡ true =
              ap₂ unauthorised (sym b) (sym src) ∙ u in
            let seen : contains_pair (show_host next.src, show_host next.dst) later.seen_talkers
                ≡ true =
              ap₂ (λ x y. contains_pair (show_host x, show_host y) later.seen_talkers) src dst
              ∙ ap (contains_pair (show_host pkt.src, show_host pkt.dst)) s
              ∙ new_talker-remembers d pkt protocol hostile in
            unfold new_talker in rw u (rw seen refl)
        | inr u ↦ unfold new_talker in rw u refl
      ]
