-- ===== src/Packets/Tests.antt =====
-- Two packets, and inputs that are refused.
use fprime_gds.Base.{refl, some, none, ◌≡◌, ◌∷◌, [], ℕ, List, Option, arith}
use fprime_gds.Base.Text.{Text, codes}
use fprime_gds.Base.Decimal.{show_ℕ}
use fprime_gds.Packets.{PacketSelection, save, mounted, validate}
use fprime_gds.Packets.RoundTrip.{save-mounted, AllExact}

abbrev exact : ℕ → ℕ
exact n = n

abbrev blank : PacketSelection
blank = record { packet_input = []; error = [] }

packets_read : Text → Option (List ℕ)
unfolding validate
packets_read t = (validate exact show_ℕ (record blank { packet_input = t })).1

readings :
    (packets_read (codes " 7,, 12 ,") ≡ some (7 ∷ 12 ∷ []))
    × (packets_read (codes "  ") ≡ some [])
    × (packets_read (codes "7, 0") ≡ none)
    × (packets_read (codes "07") ≡ none)
    × (packets_read (codes "7 8") ≡ none)
unfolding packets_read
readings = (refl, refl, refl, refl, refl)

save-mounted_example :
    (save exact show_ℕ (mounted exact show_ℕ (7 ∷ 120 ∷ []) blank)).1 ≡ some (7 ∷ 120 ∷ [])
unfolding AllExact
save-mounted_example =
    save-mounted exact show_ℕ (7 ∷ 120 ∷ []) blank
      ((omega arith, refl, refl), ((omega arith, refl, refl), tt))
