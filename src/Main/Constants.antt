-- ===== src/Main/Constants.antt =====
-- The constants of src/main.rs: the genesis of the chain, and the transaction that the program submits.
use Prim.Native.String.{String, ◌++◌}
use rem_poc.Prelude.{ℕ, List, [], ◌∷◌}

-- The text that the genesis is read from.
abbrev pub custom_genesis : String
custom_genesis =
    "\n" ++ "{\n" ++ "    \"nonce\": \"0x42\",\n" ++ "    \"timestamp\": \"0x0\",\n"
    ++ "    \"extraData\": \"0x5343\",\n" ++ "    \"gasLimit\": \"0xa388\",\n"
    ++ "    \"difficulty\": \"0x400000000\",\n"
    ++ "    \"mixHash\": \"0x0000000000000000000000000000000000000000000000000000000000000000\",\n"
    ++ "    \"coinbase\": \"0x0000000000000000000000000000000000000000\",\n" ++ "    \"alloc\": {\n"
    ++ "        \"0x6Be02d1d3665660d22FF9624b7BE0551ee1Ac91b\": {\n"
    ++ "            \"balance\": \"0x4a47e3c12448f4ad000000\"\n" ++ "        }\n" ++ "    },\n"
    ++ "    \"number\": \"0x0\",\n" ++ "    \"gasUsed\": \"0x0\",\n"
    ++ "    \"parentHash\": \"0x0000000000000000000000000000000000000000000000000000000000000000\",\n"
    ++ "    \"config\": {\n" ++ "        \"ethash\": {},\n" ++ "        \"chainId\": 2600,\n"
    ++ "        \"homesteadBlock\": 0,\n" ++ "        \"eip150Block\": 0,\n"
    ++ "        \"eip155Block\": 0,\n" ++ "        \"eip158Block\": 0,\n"
    ++ "        \"byzantiumBlock\": 0,\n" ++ "        \"constantinopleBlock\": 0,\n"
    ++ "        \"petersburgBlock\": 0,\n" ++ "        \"istanbulBlock\": 0,\n"
    ++ "        \"berlinBlock\": 0,\n" ++ "        \"londonBlock\": 0,\n"
    ++ "        \"terminalTotalDifficulty\": 0,\n"
    ++ "        \"terminalTotalDifficultyPassed\": true,\n" ++ "        \"shanghaiTime\": 0\n"
    ++ "    }\n" ++ "}\n"

-- The bytes of the raw transaction.
abbrev pub raw_tx : List ℕ
raw_tx =
    0x02 ∷ 0xf8 ∷ 0x76 ∷ 0x82 ∷ 0x0a ∷ 0x28 ∷ 0x80 ∷ 0x84 ∷ 0x77 ∷ 0x35 ∷ 0x94 ∷ 0x00 ∷ 0x84 ∷ 0x77
    ∷ 0x35 ∷ 0x94 ∷ 0x00 ∷ 0x82 ∷ 0x52 ∷ 0x08 ∷ 0x94 ∷ 0xab ∷ 0x08 ∷ 0x40 ∷ 0xc0 ∷ 0xe4 ∷ 0x36
    ∷ 0x88 ∷ 0x01 ∷ 0x2c ∷ 0x1a ∷ 0xdb ∷ 0x0f ∷ 0x5e ∷ 0x3f ∷ 0xc6 ∷ 0x65 ∷ 0x18 ∷ 0x8f ∷ 0x83
    ∷ 0xd2 ∷ 0x8a ∷ 0x02 ∷ 0x9d ∷ 0x39 ∷ 0x4a ∷ 0x5d ∷ 0x63 ∷ 0x05 ∷ 0x44 ∷ 0x00 ∷ 0x00 ∷ 0x80
    ∷ 0xc0 ∷ 0x80 ∷ 0xa0 ∷ 0xa0 ∷ 0x44 ∷ 0x07 ∷ 0x6b ∷ 0x7e ∷ 0x67 ∷ 0xb5 ∷ 0xde ∷ 0xec ∷ 0xc6
    ∷ 0x3f ∷ 0x61 ∷ 0xa8 ∷ 0xd7 ∷ 0x91 ∷ 0x3f ∷ 0xab ∷ 0x86 ∷ 0xca ∷ 0x36 ∷ 0x5b ∷ 0x34 ∷ 0x4b
    ∷ 0x57 ∷ 0x59 ∷ 0xd1 ∷ 0xfe ∷ 0x35 ∷ 0x63 ∷ 0xb4 ∷ 0xc3 ∷ 0x9e ∷ 0xa0 ∷ 0x19 ∷ 0xea ∷ 0xb9
    ∷ 0x79 ∷ 0xdd ∷ 0x00 ∷ 0x0d ∷ 0xa0 ∷ 0x4d ∷ 0xfc ∷ 0x72 ∷ 0xbb ∷ 0x03 ∷ 0x77 ∷ 0xc0 ∷ 0x92
    ∷ 0xd3 ∷ 0x0f ∷ 0xd9 ∷ 0xe1 ∷ 0xca ∷ 0xb5 ∷ 0xae ∷ 0x48 ∷ 0x7d ∷ 0xe4 ∷ 0x95 ∷ 0x86 ∷ 0xcc
    ∷ 0x8b ∷ 0x00 ∷ 0x90 ∷ []

-- The hash of the transaction.
abbrev pub expected : ℕ
expected = 0xb1c6512f4fc202c04355fbda66755e0e344b152e633010e8fd75ecec09b63398
