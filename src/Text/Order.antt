-- ===== src/Text/Order.antt =====
-- std::less on strings: byte by byte, and a prefix comes first.
use dist_cache.Prelude.{◌≡◌, refl, Bool, true, false, [], ◌∷◌, arith, ltb, if◌then◌else◌}
use dist_cache.Text.{Text}
use dist_cache.OrdMap.Compare.{Order}

unfoldable pub less : Text → Text → Bool
less s [] = false
less [] (d ∷ ds) = true
less (c ∷ cs) (d ∷ ds) =
    let rest = less cs ds in if ltb c d then true else if ltb d c then false else rest

pub less_irrefl : (s : Text) → less s s ≡ false
unfolding less
less_irrefl [] = refl
less_irrefl (c ∷ s) = ground (arith, less_irrefl s)

pub less_trans : (s t u : Text) → less s t ≡ true → less t u ≡ true → less s u ≡ true
unfolding less
less_trans s [] u h k = absurd cc
less_trans s (d ∷ t) [] h k = absurd cc
less_trans [] (d ∷ t) (e ∷ u) h k = refl
less_trans (c ∷ s) (d ∷ t) (e ∷ u) h k = ground (arith, less_trans s t u)

pub less_total : (s t : Text) → less s t ≡ false → less t s ≡ false → s ≡ t
unfolding less
less_total [] [] h k = refl
less_total [] (d ∷ t) h k = absurd cc
less_total (c ∷ s) [] h k = absurd cc
less_total (c ∷ s) (d ∷ t) h k = ground (arith, less_total s t)

abbrev pub text_order : Order Text
text_order = record { less = less; irrefl = less_irrefl; trans = less_trans; total = less_total }
