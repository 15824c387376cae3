-- ===== src/Protocol.antt =====
-- `Protocol` of include/coplus/protocol.h: how a message is framed. Words are written least
-- significant byte first, as on the platforms that the code is built for.
pub mod Frame
pub mod Listing
pub mod Format
mod Tests
use coplus.Prelude.{ℕ, ◌+◌, ◌-◌, ◌/◌, ◌%◌, List, [], ◌∷◌, ◌++◌, length, replicate, take, drop}
use coplus.Text.{Text}

abbrev pub app_head : ℕ
app_head = 3735929054

abbrev pub app_terminator : ℕ
app_terminator = 3735928559

abbrev pub minimum_frame : ℕ
minimum_frame = 8

-- The four bytes of a word in memory.
abbrev pub word_bytes : ℕ → Text
word_bytes w = w % 256 ∷ w / 256 % 256 ∷ w / 65536 % 256 ∷ w / 16777216 % 256 ∷ []

-- `memcpy` of four bytes to a place in a string.
abbrev pub write_word : Text → ℕ → ℕ → Text
write_word s pos w = take pos s ++ (word_bytes w ++ drop (pos + 4) s)

abbrev pub spaces : Text
spaces = replicate 4 32

unfoldable pub pickle_message : ℕ → Text → ℕ → Text
pickle_message type request raw_type =
    let ret = spaces ++ (type ∷ []) ++ spaces ++ (raw_type ∷ []) ++ request ++ spaces in
    let ret' = write_word ret 0 app_head in
    let ret'' = write_word ret' 5 (length ret' - minimum_frame) in
    write_word ret'' (length ret'' - 4) app_terminator

-- The message of a sender at `addr`, between colons.
unfoldable pub pickle_direct : ℕ → Text → Text → Text
unfolding pickle_message
pickle_direct type addr request =
    pickle_message type ((58 ∷ 58 ∷ []) ++ addr ++ (58 ∷ 58 ∷ []) ++ request) 100
