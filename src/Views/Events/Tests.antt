-- ===== src/Views/Events/Tests.antt =====
-- A command event.
use fprime_gds.Base.{refl, ◌≡◌, ◌∷◌, []}
use fprime_gds.Base.Text.{codes, is_prefix, text_eq}
use fprime_gds.Base.Decimal.{show_ℕ, digits_value}
use fprime_gds.Base.Store.{find_key}
use fprime_gds.Views.Events.{
  remap_opcode, find_opcode, opcode_at_head, hex_at_head, is_hex, opcode_span, mnemonic_of,
}

remapped :
    remap_opcode ((codes "31", codes "cmd.NO_OP") ∷ []) (codes "Opcode 0x1F dispatched")
    ≡ codes "<span title=\"Opcode 0x1F\">cmd.NO_OP</span> dispatched"
unfolding remap_opcode find_opcode opcode_at_head hex_at_head is_hex opcode_span mnemonic_of
    is_prefix digits_value find_key show_ℕ text_eq
remapped = refl
