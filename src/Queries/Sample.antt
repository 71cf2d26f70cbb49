-- ===== src/Queries/Sample.antt =====
-- A matching of keys by their first words, and an empty cache that takes no write.
use nanas.Prelude.{◌≡◌, ap, arith, refl, Bool, true, false, ◌&&◌, List, [], ◌∷◌}
use nanas.Prelude.Text.{Text, codes, text_eq, text_eq_iff}
use nanas.Web.LocalCache.{CachedItem, Parsed, throws, World}
use nanas.Queries.{Part, word, number, given, missing, Key}
use nanas.Queries.Laws.{IsPrefixTest}

-- A matching of keys by their first words.
abbrev is_word : Text → Part → Bool
is_word w (word v) = text_eq w v
is_word w (number n) = false
is_word w (given v) = false
is_word w missing = false

abbrev pub covers : Key → Key → Bool
covers [] k = true
covers (word w ∷ p) [] = false
covers (word w ∷ p) (a ∷ k) = is_word w a && covers p k
covers (number n ∷ p) k = false
covers (given v ∷ p) k = false
covers (missing ∷ p) k = false

pub covers-IsPrefixTest : IsPrefixTest covers
covers-IsPrefixTest [] k = (λ h. tt, λ h. refl)
covers-IsPrefixTest (w ∷ ws) [] = (λ h. absurd (cc (h)), λ h. absurd h)
covers-IsPrefixTest (w ∷ ws) (word v ∷ k) =
    let more = covers-IsPrefixTest ws k in
    let same = text_eq_iff w v in
    (
      λ h. (ap word (same.0 (ground (arith, h))), more.0 (ground (arith, h))),
      λ h. let eq : w ≡ v = cc (h.0) in rw (same.1 eq, more.1 h.1) refl,
    )
covers-IsPrefixTest (w ∷ ws) (number n ∷ k) = (λ h. absurd (cc (h)), λ h. absurd (cc (h.0)))
covers-IsPrefixTest (w ∷ ws) (given v ∷ k) = (λ h. absurd (cc (h)), λ h. absurd (cc (h.0)))
covers-IsPrefixTest (w ∷ ws) (missing ∷ k) = (λ h. absurd (cc (h)), λ h. absurd (cc (h.0)))

abbrev pub unreadable : Text → Parsed
unreadable s = throws

abbrev pub stringify : List CachedItem → Text
stringify l = codes "[]"

abbrev pub accepts : Text → Text → Bool
accepts k s = false

abbrev pub empty_world : World
empty_world = record {
  defined = true;
  readable = true;
  entries = [];
  snapshots = [];
  listeners = [];
  called = [];
}
