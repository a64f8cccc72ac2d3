-- ===== src/Hlc/Tests.antt =====
-- Runs of the clocks of hlc.ts.
use bare_network_inspect.Base.{
  ℕ, ◌+◌, ◌-◌, ◌*◌, ◌≡◌, refl, ◌≢◌, ◌&&◌, Option, none, some, [], ◌∷◌, leb, if◌then◌else◌, JsString,
  ascii,
}
use bare_network_inspect.Hlc.{
  HlcTime, digits, decimal, serialize_hlc, split_colon, named, parse_hlc, recv_wire, send, recv,
  recv_counter, new,
}
use bare_network_inspect.Hlc.Order.{Before, sent, delivered, chain, HappensBefore-Before}
use bare_network_inspect.Hlc.Wire.{parse_hlc-serialize_hlc}

-- `Number` on decimal digits, and no other string.
abbrev number_from : ℕ → JsString → Option ℕ
number_from n [] = some n
number_from n (ch ∷ s) =
    let rest = number_from (n * 10 + (ch - 48)) s in if leb 48 ch && leb ch 57 then rest else none

abbrev number : JsString → Option ℕ
number s = number_from 0 s

abbrev alice : HlcTime
alice = record { l = 1005; c = 2; id = ascii "a:x" }

abbrev bob : HlcTime
bob = record { l = 900; c = 0; id = ascii "b" }

wire_alice : serialize_hlc alice ≡ ascii "1005:2:a:x"
unfolding serialize_hlc decimal digits
wire_alice = refl

malformed : (parse_hlc number (ascii "1:2") ≡ none) × (parse_hlc number (ascii "1:2:") ≡ none)
unfolding parse_hlc split_colon named
malformed = (refl, refl)

-- A wall clock behind the sender's cannot put the receipt before the sending.
recv_bob :
    recv_wire number bob (ascii "1005:2:a:x") 901
    ≡ some (record { l = 1005; c = 3; id = ascii "b" })
unfolding recv_wire recv recv_counter parse_hlc split_colon named
recv_bob = refl

send-new : send (new (ascii "b")) 5 ≡ record { l = 5; c = 0; id = ascii "b" }
unfolding send new
send-new = refl

parse_hlc-serialize_hlc_example : parse_hlc number (serialize_hlc alice) ≡ some alice
unfolding decimal digits
parse_hlc-serialize_hlc_example =
    parse_hlc-serialize_hlc number alice (λ e. absurd (cons_ne e)) refl refl
  where
    cons_ne : {x : ℕ} {xs : JsString} → x ∷ xs ≢ []
    cons_ne e = cc

HappensBefore-Before_example : Before alice (send (recv bob (send alice 1000) 901) 902)
HappensBefore-Before_example =
    HappensBefore-Before alice (send (recv bob (send alice 1000) 901) 902) (
      chain alice (send alice 1000) (send (recv bob (send alice 1000) 901) 902) (sent alice 1000) (
        chain (send alice 1000) (recv bob (send alice 1000) 901)
          (send (recv bob (send alice 1000) 901) 902) (delivered bob (send alice 1000) 901)
          (sent (recv bob (send alice 1000) 901) 902)))
