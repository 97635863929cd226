-- ===== src/Protocol/CommControl.antt =====
-- The subfunctions of the communication control command, and the payloads that it asks for.
use scrutiny_embedded.Base.{ℕ, List, [], ◌∷◌}

abbrev pub discover : ℕ
discover = 1

abbrev pub heartbeat : ℕ
heartbeat = 2

abbrev pub get_params : ℕ
get_params = 3

abbrev pub connect : ℕ
connect = 4

abbrev pub disconnect : ℕ
disconnect = 5

abbrev pub discover_magic : List ℕ
discover_magic = 0x7E ∷ 0x18 ∷ 0xFC ∷ 0x68 ∷ []

abbrev pub connect_magic : List ℕ
connect_magic = 0x82 ∷ 0x90 ∷ 0x22 ∷ 0x66 ∷ []
