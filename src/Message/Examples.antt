-- ===== src/Message/Examples.antt =====
-- The round trip at a message with reasoning, text and a call.
use agentic_loop.Prelude.{◌≡◌, refl, false, [], ◌∷◌, codes}
use agentic_loop.Message.{Message, assistant, empty_message, effective_parts, sync_views}
use agentic_loop.Message.RoundTrip.{IsPure, sync_views-effective_parts}

abbrev turn : Message
turn = record (empty_message assistant) {
  content = codes "ok";
  thinking_blocks =
      record { text = codes "hm"; signature = codes "s"; id = []; redacted = []; raw = false }
      ∷ record { text = []; signature = []; id = []; redacted = codes "x"; raw = false }
      ∷ [];
  tool_calls = record { id = codes "1"; name = codes "ls"; arguments = codes "{}" } ∷ [];
}

reasoning-IsPure :
    IsPure
      (record { text = codes "hm"; signature = codes "s"; id = []; redacted = []; raw = false })
reasoning-IsPure = record {
  no_text = λ h. absurd (h refl);
  no_signature = λ h. absurd (h refl);
  no_id = λ h. absurd (h refl);
  not_raw = λ h. absurd (h refl);
}

payload-IsPure :
    IsPure (record { text = []; signature = []; id = []; redacted = codes "x"; raw = false })
payload-IsPure = record {
  no_text = λ h. refl;
  no_signature = λ h. refl;
  no_id = λ h. refl;
  not_raw = λ h. refl;
}

sync_views-effective_parts_example :
    sync_views (record turn { parts = effective_parts turn })
    ≡ record turn { parts = effective_parts turn }
sync_views-effective_parts_example =
    sync_views-effective_parts turn refl (reasoning-IsPure, (payload-IsPure, tt))
