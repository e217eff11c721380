-- ===== src/Tests/Hooks.antt =====
-- The network shim's hooks (crates/psroot-netshim/src/hooks.rs) over a channel whose other side is gone.
use psroot.Prelude.{ℕ, ◌≡◌, refl, false, some, none, [], ◌∷◌}
use psroot.Proto.{sock_v4, reply_ok, new_header}
use psroot.Client.{Channel, Arrival, exchange, collect}
use psroot.Client.Methods
use psroot.NetShim.{lookup}
use psroot.NetShim.Hooks.{
  CInt, Hooked, Shim, hook_connect, hook_bind, hook_listen, hook_send, hook_recv, hook_closesocket,
}
use psroot.NetShim.Names.{write_sockaddr, NameAnswer, raw_of}
use psroot.NetShim.Routing.{StaysIn, known_stays}

-- A channel that answers each request with three bytes; its state is the last correlation.
abbrev three_bytes : Channel ℕ
three_bytes = record {
  send = λ hdr bytes c. (none, hdr.correlation);
  recv_blocking = λ c. (Arrival.message (reply_ok c 0) (1 ∷ 2 ∷ 3 ∷ []), c);
}

abbrev shim : Shim ℕ
shim = record {
  handles = record { sockets = (0x100000000, 7) ∷ []; next_fake = 0x100000001 };
  client = record { channel = 0; next_correlation = 9; patience = 4 };
}

abbrev after_recv : Shim ℕ
after_recv = record {
  handles = record { sockets = (0x100000000, 7) ∷ []; next_fake = 0x100000001 };
  client = record { channel = 9; next_correlation = 10; patience = 4 };
}

known : lookup 0x100000000 shim.handles ≡ some 7
unfolding lookup
known = refl

unknown : lookup 52 shim.handles ≡ none
unfolding lookup
unknown = refl

known_stays_example :
    StaysIn (hook_connect three_bytes 0x100000000 none (CInt.pos 16) 0 (some shim))
    × StaysIn (hook_bind three_bytes 0x100000000 none (CInt.pos 16) 0 (some shim))
    × StaysIn (hook_listen three_bytes 0x100000000 (CInt.pos 16) 0 (some shim))
    × StaysIn (hook_send three_bytes 0x100000000 (some (1 ∷ [])) (CInt.pos 16) 0 (some shim))
    × StaysIn (hook_recv three_bytes 0x100000000 false (CInt.pos 16) 0 (some shim))
    × StaysIn (hook_closesocket three_bytes 0x100000000 0 (some shim))
known_stays_example =
    known_stays three_bytes shim 0x100000000 7 none (CInt.pos 16) (some (1 ∷ [])) false known

received :
    hook_recv three_bytes 0x100000000 false (CInt.pos 2) 0 (some shim)
    ≡ (Hooked.returned (1 ∷ 2 ∷ []), some after_recv)
unfolding hook_recv lookup Methods.recv exchange collect new_header
received = refl

given :
    write_sockaddr (sock_v4 10 88 0 2 80) false (some (CInt.pos 16))
    ≡ NameAnswer.filled (raw_of (sock_v4 10 88 0 2 80))
unfolding write_sockaddr
given = refl
