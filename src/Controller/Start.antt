-- ===== src/Controller/Start.antt =====
-- there-controller/src/main.rs: the addresses under which agents are told to bootstrap.
pub mod Prefixes
use that_goes_there.Prelude.{
  ℕ, String, ◌<>◌, Bool, ◌&&◌, ◌||◌, Option, none, some, List, [], ◌∷◌, ◌++◌, ◌==◌, leb,
  if◌then◌else◌,
}
use that_goes_there.Text.{decimal}
use that_goes_there.Outcome.{Outcome}
use that_goes_there.Exec.{Exec, lift, modify, ◌>>=◌}

abbrev pub port : ℕ
port = 2345

-- `std::net::IpAddr`: the octets, and the segments.
pub data IpAddr : Type 0 where
  v4 : (a b c d : ℕ) → IpAddr
  v6 : (s0 s1 s2 s3 s4 s5 s6 s7 : ℕ) → IpAddr

-- `IpAddr::is_loopback`
abbrev pub is_loopback : IpAddr → Bool
is_loopback (v4 a b c d) = a == 127
is_loopback (v6 s0 s1 s2 s3 s4 s5 s6 s7) =
    (s0 == 0)
    && ((s1 == 0)
        && ((s2 == 0) && ((s3 == 0) && ((s4 == 0) && ((s5 == 0) && ((s6 == 0) && (s7 == 1)))))))

-- Whether the loop over the interfaces goes on without printing the address.
unfoldable pub is_skipped : IpAddr → Bool
is_skipped (v4 a b c d) =
    is_loopback (v4 a b c d)
    || ((a == 127) || (((a == 169) && (b == 254)) || ((a == 172) && (leb 16 b && leb b 31))))
is_skipped (v6 s0 s1 s2 s3 s4 s5 s6 s7) = is_loopback (v6 s0 s1 s2 s3 s4 s5 s6 s7) || (s0 == 0xfe80)

-- `show` is `format!("{}", …)` of an address.
module _ (show : IpAddr → String) where
  unfoldable pub bootstrap_line : String → IpAddr → String
  bootstrap_line token ip =
      "  - http://" <> (show ip <> (":" <> (decimal port <> ("/api/bootstrap?token=" <> token))))

  -- What is printed for an interface, by its first address.
  unfoldable pub interface_lines : String → Option IpAddr → List String
  interface_lines token none = []
  interface_lines token (some ip) = if is_skipped ip then [] else bootstrap_line token ip ∷ []

  unfoldable pub interfaces_lines : String → List (Option IpAddr) → List String
  interfaces_lines token [] = []
  interfaces_lines token (i ∷ is) = interface_lines token i ++ interfaces_lines token is

  println : List String → Exec (List String) Unit
  unfolding modify
  println ls = modify (λ printed. printed ++ ls)

  -- `main` in front of the server, of what the key files and the network gave; the state is what has
  -- been printed, also where the interfaces cannot be listed.
  unfoldable pub start_up :
      {KeyPair : Type 0}
      → Outcome KeyPair
      → Outcome String
      → Outcome (List (Option IpAddr))
      → Exec (List String) Unit
  unfolding println
  start_up keypair given interfaces = do
    client_key ← lift keypair
    token ← lift given
    announced ←
        println (("* token for agent connections: " <> token) ∷ "* agents can bootstrap via:" ∷ [])
    found ← lift interfaces
    println (interfaces_lines token found)
