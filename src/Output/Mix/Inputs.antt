-- ===== src/Output/Mix/Inputs.antt =====
-- output_mix.c: the loop over the inputs that looks for the next packet.
use mptsd.Base.{
  ℕ, zero, suc, ◌+◌, ◌-◌, ◌^◌, min, List, Option, none, some, Bytes, length, set, get_elem?, u64,
  ltb, leb, ◌==◌, ◌&&◌, ◌||◌, not, if◌then◌else◌,
}
use mptsd.Libs.{Libs}
use mptsd.Input.{Input}

-- round(bitrate / 8 / 27000000 / 188 * (pcr - last_pcr)) - 1 in double arithmetic, 0 for a negative
-- number; of the value nothing is assumed. The argument is the difference of the clocks in 64 bits.
abbrev pub Pacing : Type 0
Pacing = ℕ → ℕ

-- output_pcr_packets_needed, which is at most `o_maxpackets` and INT_MAX / 2
unfoldable pub packets_needed : Pacing → ℕ → ℕ → Input → ℕ
packets_needed pace o_maxpackets pcr r =
    if not (r.output_last_pcr == 0) && r.output_pcr_packets_needed == 0
    then min (pace (u64 (pcr + 2 ^ 64 - r.output_last_pcr))) (min o_maxpackets 1073741823)
    else r.output_pcr_packets_needed

-- What an input gives: how much read_count grows, the packet, and the input afterwards.
pub record Taken : Type 0 where
  pub read : ℕ
  pub packet : Option Bytes
  pub input : Input

-- cbuf_get, and the padding is removed
unfoldable pub get_packet : Libs → Input → Taken
get_packet L r =
    let (packet, buf) = L.cbuf_get r.buf 188 in
    record {
      read = 1;
      packet =
          if length packet == 188 && ltb (L.ts_packet_get_pid packet) 0x1fff
          then some packet
          else none;
      input = record r { buf = buf };
    }

-- Moving clocks: a packet with the clock of the service waits until enough packets were sent.
unfoldable pub get_paced : Libs → Pacing → ℕ → Input → Taken
unfolding get_packet packets_needed
get_paced L pace o_maxpackets r =
    let packet = L.cbuf_peek r.buf 188 in
    let pcr = L.ts_packet_get_pcr packet in
    let needed = packets_needed pace o_maxpackets pcr r in
    let waiting = record r { output_pcr_packets_needed = needed } in
    let passed = record r {
      output_pcr = pcr;
      output_last_pcr = pcr;
      output_pcr_packets_needed = 0;
      outputed_packets = 0;
    } in
    if not (length packet == 188)
    then record { read = 0; packet = none; input = r }
    else if L.ts_packet_get_pid packet == r.output_pcr_pid && L.ts_packet_has_pcr packet
    then if ltb 0 needed && ltb r.outputed_packets needed
      then record { read = 1; packet = none; input = waiting }
      else get_packet L passed
    else get_packet L r

unfoldable pub take_packet : Libs → Pacing → ℕ → ℕ → Input → Taken
take_packet L pace pcr_mode o_maxpackets r =
    if pcr_mode == 1 || pcr_mode == 3 then get_paced L pace o_maxpackets r else get_packet L r

-- inpt->next, past the root of the list
abbrev pub next_input : ℕ → ℕ → ℕ
next_input items inpt = if leb items (inpt + 1) then 0 else inpt + 1

pub record Scanned : Type 0 where
  pub inpt : ℕ
  pub inputs : List Input
  pub read_count : ℕ
  pub packet : Option Bytes

-- while (inputs_left--)
unfoldable pub scan_inputs : Libs → Pacing → ℕ → ℕ → ℕ → ℕ → List Input → ℕ → Scanned
scan_inputs L pace pcr_mode o_maxpackets zero inpt rs read_count = record {
  inpt = inpt;
  inputs = rs;
  read_count = read_count;
  packet = none;
}
scan_inputs L pace pcr_mode o_maxpackets (suc inputs_left) inpt rs read_count =
    let i = next_input (length rs) inpt in
    elim (get_elem? rs i) [
      | none ↦ scan_inputs L pace pcr_mode o_maxpackets inputs_left i rs read_count
      | some r ↦
          let t = take_packet L pace pcr_mode o_maxpackets r in
          let rs' = set rs i t.input in
          let rest =
            scan_inputs L pace pcr_mode o_maxpackets inputs_left i rs' (read_count + t.read) in
          elim t.packet [
            | none ↦ rest
            | some packet ↦ record {
              inpt = i;
              inputs = rs';
              read_count = read_count + t.read;
              packet = some packet;
            }
          ]
    ]
