-- ===== src/Protocol/Tests.antt =====
-- A framed request.
use coplus.Prelude.{◌≡◌, refl, [], ◌∷◌, ◌++◌, ◌+◌}
use coplus.Protocol.{app_terminator, word_bytes, pickle_message, pickle_direct}
use coplus.Protocol.Frame.{opening, pickle_message-layout}

hi_framed :
    pickle_message 1 (104 ∷ 105 ∷ []) 116
    ≡ 222 ∷ 192 ∷ 173 ∷ 222 ∷ 1 ∷ 8 ∷ 0 ∷ 0 ∷ 0 ∷ 116 ∷ 104 ∷ 105 ∷ 239 ∷ 190 ∷ 173 ∷ 222 ∷ []
unfolding pickle_message
hi_framed = refl

pickle_message-layout_example :
    pickle_message 1 (104 ∷ 105 ∷ []) 116
    ≡ opening 1 (2 + 6) 116 (104 ∷ 105 ∷ []) ++ word_bytes app_terminator
pickle_message-layout_example = pickle_message-layout 1 (104 ∷ 105 ∷ []) 116

-- From `a`, the message `m`.
from_a :
    pickle_direct 2 (97 ∷ []) (109 ∷ []) ≡ pickle_message 2 (58 ∷ 58 ∷ 97 ∷ 58 ∷ 58 ∷ 109 ∷ []) 100
unfolding pickle_direct
from_a = refl
