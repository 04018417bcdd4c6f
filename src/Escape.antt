-- ===== src/Escape.antt =====
-- lib/server/Utils.cpp, `rspUnescape`: the contents of the buffer after the call, up to the
-- length that it returns. It works in place; a character is written at or before the place that
-- was read last, so the characters still to be read are those of the input. An escape as the last
-- character reads the NUL behind the data.
use embdebug.Base.{bit_xor, [], ◌∷◌, Bytes, ◌==◌, if◌then◌else◌}

unfoldable pub rsp_unescape : Bytes → Bytes
rsp_unescape [] = []
rsp_unescape (c ∷ []) = if c == b'}' then bit_xor 0 0x20 ∷ [] else c ∷ []
rsp_unescape (c ∷ d ∷ buf) =
    let escaped = rsp_unescape buf in
    let plain = rsp_unescape (d ∷ buf) in if c == b'}' then bit_xor d 0x20 ∷ escaped else c ∷ plain
