-- ===== src/Schemas/Bounds.antt =====
-- That what a valid chat request reserves fits into the column `reserved_tokens`, a 32-bit integer
-- (schemas/api.py, routes/chat.py and models/entities.py).
use orbi_inference.Base.{◌*◌, ◌≤◌, ◌≡◌, true, List, [], ◌∷◌, length, sum_by, arith}
use orbi_inference.Base.Text.{Text}
use orbi_inference.Chat.{ChatMessage, ChatCompletionRequest, utf8_length, reservation}
use orbi_inference.Schemas.{all_meet, is_valid_message, is_valid_chat}

utf8_length-le : (s : Text) → utf8_length s ≤ 4 * length s
utf8_length-le [] = omega arith
utf8_length-le (c ∷ s) = ground (arith, utf8_length-le s)

messages-le :
    (t : List ChatMessage)
    → all_meet is_valid_message t ≡ true
    → sum_by (λ (m : ChatMessage). utf8_length m.content) t ≤ 400_000 * length t
messages-le [] h = omega arith
messages-le (m ∷ t) h = ground (arith, utf8_length-le m.content, messages-le t)

-- What a valid chat request reserves is below 2 to the power of 27: at most 256 messages of 100000
-- code points, four bytes each, and 4096 tokens of output.
pub reservation-le :
    (payload : ChatCompletionRequest)
    → is_valid_chat payload ≡ true
    → reservation payload ≤ 102_404_096
unfolding reservation
reservation-le payload h = ground (arith, messages-le payload.messages)
