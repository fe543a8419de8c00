-- ===== src/Models/Tests.antt =====
-- The state machine's theorems at concrete states.
use appx_forge.Base.{◌≡◌, ◌↔◌, true, none}
use appx_forge.Models.{SandboxEvent, destroyed, failed, pending, is_terminal, next_state}
use appx_forge.Models.Machine.{is_terminal_iff, Leads, next_state-Leads}

is_terminal_iff_example :
    (is_terminal destroyed ≡ true) ↔ ((e : SandboxEvent) → next_state destroyed e ≡ none)
is_terminal_iff_example = is_terminal_iff destroyed

next_state-Leads_example : Leads pending failed × Leads failed destroyed
next_state-Leads_example = next_state-Leads failed
