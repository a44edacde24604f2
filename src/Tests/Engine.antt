-- ===== src/Tests/Engine.antt =====
-- The table of engines and the engines that run commands, over a shell that keeps a count.
use banip.Base.{ℕ, suc, [], ◌∷◌, codes}
use banip.Parse.Addr.{Addr, inet}
use banip.Engine.Command.{Shell}

-- The number of commands so far; each of them fails with 1.
abbrev pub counting : Shell ℕ
counting = record { system = λ command n. (1, suc n); stderr = λ line n. suc n }

abbrev pub host : Addr
host = record {
  sa = 0x0302010a ∷ 0 ∷ 0 ∷ 0 ∷ [];
  fa = inet;
  sa_size = 4;
  netmask = 32;
  humanrepr = codes "10.1.2.3";
}
