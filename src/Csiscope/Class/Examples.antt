-- ===== src/Csiscope/Class/Examples.antt =====
-- A window of four records of three classes.
use csid.Csiscope.Class.{ClassKey, ht, he, unknown, class_text, new_class_census, dominant}
use csid.Csiscope.Class.Counted.{add_all, IsDominant, dominant-IsDominant}
use csid.Prelude.{◌≡◌, refl, List, [], ◌∷◌, arith}

abbrev ht56 : ClassKey
ht56 = record { ntone = 56; phy = ht }

abbrev he996 : ClassKey
he996 = record { ntone = 996; phy = he }

abbrev odd : ClassKey
odd = record { ntone = 64; phy = unknown 7 }

abbrev keys : List ClassKey
keys = ht56 ∷ he996 ∷ odd ∷ he996 ∷ []

odd_text :
    class_text odd
    ≡ b'6' ∷ b'4' ∷ b':' ∷ b'u' ∷ b'n' ∷ b'k' ∷ b'n' ∷ b'o' ∷ b'w' ∷ b'n' ∷ b'(' ∷ b'7' ∷ b')' ∷ []
unfolding class_text
odd_text = refl

dominant-IsDominant_example : IsDominant keys (dominant (add_all keys new_class_census))
dominant-IsDominant_example = dominant-IsDominant keys (omega arith)
