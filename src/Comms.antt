-- ===== src/Comms.antt =====
-- The serial line of src/drivers/uart_sim.c: the bytes of a frame and its command line. The sockets
-- are a parameter: a frame is read from the list of what recv returns, and a reply is sent as send
-- accepts it.
pub mod Handlers
pub mod Frames
pub mod Saved
pub mod Boots
use Prim.Native.String.{String}
use config_wp.Base.{
  ℕ, zero, suc, ◌+◌, ◌-◌, Bool, true, false, not, ◌&&◌, ◌||◌, Option, none, some, List, [], ◌∷◌,
  ◌++◌, length, take, drop, ltb, leb, ◌==◌, if◌then◌else◌,
}

-- What recv returns: bytes, of which it copies no more than there is room for, 0 at the end of the
-- connection, -1 with EINTR, or -1 with another error.
pub data Recv : Type 0 where
  received : List ℕ → Recv
  closed interrupted failed : Recv

abbrev pub rx_room : ℕ
rx_room = 16383

-- The inner loop of uart_sim_task, with what was read so far; `none` waits for more.
unfoldable pub receive : ℕ → List Recv → List ℕ → Option (List ℕ)
receive room [] rx = none
receive room (received bytes ∷ more) rx =
    let rx' = rx ++ take (room - length rx) bytes in
    let rest = receive room more rx' in if leb room (length rx') then some rx' else rest
receive room (closed ∷ more) rx = some rx
receive room (interrupted ∷ more) rx = receive room more rx
receive room (failed ∷ more) rx = some rx

-- What send returns: `took n` is the number n + 1 of bytes taken, no more than there are; -1 with
-- EINTR; or an error, which 0 is too.
pub data Sent : Type 0 where
  took : ℕ → Sent
  again : Sent
  broken : Sent

-- uart_sim_send_all: the bytes that went out, and whether all did. `none` waits for the socket.
unfoldable pub send_all : List Sent → List ℕ → List ℕ → Option (Bool × List ℕ)
send_all script [] out = some (true, out)
send_all [] (b ∷ bytes) out = none
send_all (took n ∷ script) (b ∷ bytes) out =
    send_all script (drop n bytes) (out ++ b ∷ take n bytes)
send_all (again ∷ script) (b ∷ bytes) out = send_all script (b ∷ bytes) out
send_all (broken ∷ script) (b ∷ bytes) out = some (false, out)

abbrev pub is_blank : ℕ → Bool
is_blank c = c == b' ' || c == b'\t'

abbrev pub is_line_end : ℕ → Bool
is_line_end c = c == b'\n' || c == b'\r'

-- toupper in the C locale
abbrev pub to_upper : ℕ → ℕ
to_upper c = if leb b'a' c && leb c b'z' then c - 32 else c

unfoldable pub skip_blanks : List ℕ → List ℕ
skip_blanks [] = []
skip_blanks (c ∷ s) = let rest = skip_blanks s in if is_blank c then rest else c ∷ s

-- The copy loop: what is in `out` after it, and what is left of the buffer.
unfoldable pub copy_line : ℕ → List ℕ → List ℕ → List ℕ × List ℕ
copy_line out_cap [] out = (out, [])
copy_line out_cap (c ∷ s) out =
    let out' = if ltb (length out + 1) out_cap then out ++ to_upper c ∷ [] else out in
    let rest = copy_line out_cap s out' in if is_line_end c then (out, c ∷ s) else rest

abbrev pub keep_blank : ℕ → List ℕ → List ℕ
keep_blank c [] = if is_blank c then [] else c ∷ []
keep_blank c (d ∷ s) = c ∷ d ∷ s

-- The blanks at the end are dropped.
unfoldable pub strip_trailing : List ℕ → List ℕ
strip_trailing [] = []
strip_trailing (c ∷ s) = keep_blank c (strip_trailing s)

abbrev pub skip_byte : ℕ → List ℕ → List ℕ
skip_byte b [] = []
skip_byte b (c ∷ s) = if c == b then s else c ∷ s

-- The command, and the buffer from the offset that the C function returns.
abbrev pub end_line : List ℕ × List ℕ → List ℕ × List ℕ
end_line (out, rest) = (strip_trailing out, skip_byte b'\n' (skip_byte b'\r' rest))

unfoldable pub extract_cmd : List ℕ → ℕ → List ℕ × List ℕ
unfolding skip_blanks copy_line strip_trailing
extract_cmd buf out_cap = end_line (copy_line out_cap (skip_blanks buf) [])
