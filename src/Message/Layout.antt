-- ===== src/Message/Layout.antt =====
-- Where the structures of inc/message.h keep their fields, by the rules of the x86-64 C++ ABI: a
-- field stands at the next multiple of its alignment, a derived class goes on in the tail padding
-- of its base, and a size is rounded up to the alignment of the structure, which is 8 here.
use hft.Base.{ℕ, ◌+◌, ◌-◌, ◌*◌, ◌/◌, ◌≡◌, refl, List, [], ◌∷◌}

-- The bytes of one element, and the number of elements: `std::array<char, 16>` is `(1, 16)`.
abbrev pub Field : Type 0
Field = ℕ × ℕ

unfoldable pub align_up : ℕ → ℕ → ℕ
align_up n a = (n + a - 1) / a * a

-- The end of the last field, for fields that are laid out from `at` on.
unfoldable pub data_end : ℕ → List Field → ℕ
unfolding align_up
data_end at [] = at
data_end at ((size, count) ∷ fields) = data_end (align_up at size + size * count) fields

-- The offset of each field.
unfoldable pub offsets : ℕ → List Field → List ℕ
unfolding align_up
offsets at [] = []
offsets at ((size, count) ∷ fields) =
    align_up at size ∷ offsets (align_up at size + size * count) fields

-- The fields of `Message`, from `message_id` to `payload`.
abbrev pub message_fields : List Field
message_fields =
    (8, 1) ∷ (8, 1) ∷ (4, 1) ∷ (1, 1) ∷ (1, 1) ∷ (4, 1) ∷ (4, 1) ∷ (4, 1) ∷ (1, 1024) ∷ []

-- The fields that `OrderMessage` adds, from `symbol` to `stop_price`.
abbrev pub order_fields : List Field
order_fields = (1, 16) ∷ (1, 1) ∷ (1, 1) ∷ (1, 1) ∷ (8, 1) ∷ (8, 1) ∷ (4, 1) ∷ (8, 1) ∷ (8, 1) ∷ []

-- The fields that `MarketDataMessage` adds, from `symbol` to `low_price`.
abbrev pub market_data_fields : List Field
market_data_fields =
    (1, 16) ∷ (8, 1) ∷ (4, 1) ∷ (8, 1) ∷ (4, 1) ∷ (8, 1) ∷ (4, 1) ∷ (8, 1) ∷ (8, 1) ∷ (8, 1) ∷ []

abbrev pub message_size : ℕ
message_size = 1064

abbrev pub order_size : ℕ
order_size = 1120

abbrev pub market_data_size : ℕ
market_data_size = 1152

-- `offsetof(Message, payload)`
abbrev pub payload_offset : ℕ
payload_offset = 36

message_size_lem : align_up (data_end 0 message_fields) 8 ≡ message_size
unfolding data_end
message_size_lem = refl

order_size_lem : align_up (data_end (data_end 0 message_fields) order_fields) 8 ≡ order_size
unfolding data_end
order_size_lem = refl

market_data_size_lem :
    align_up (data_end (data_end 0 message_fields) market_data_fields) 8 ≡ market_data_size
unfolding data_end
market_data_size_lem = refl

message_offsets :
    offsets 0 message_fields ≡ 0 ∷ 8 ∷ 16 ∷ 20 ∷ 21 ∷ 24 ∷ 28 ∷ 32 ∷ payload_offset ∷ []
unfolding offsets
message_offsets = refl

-- The padding that the codec writes: before `source_id`, and at the end of each structure.
order_offsets :
    offsets (data_end 0 message_fields) order_fields
    ≡ 1060 ∷ 1076 ∷ 1077 ∷ 1078 ∷ 1080 ∷ 1088 ∷ 1096 ∷ 1104 ∷ 1112 ∷ []
unfolding offsets data_end
order_offsets = refl

market_data_offsets :
    offsets (data_end 0 message_fields) market_data_fields
    ≡ 1060 ∷ 1080 ∷ 1088 ∷ 1096 ∷ 1104 ∷ 1112 ∷ 1120 ∷ 1128 ∷ 1136 ∷ 1144 ∷ []
unfolding offsets data_end
market_data_offsets = refl
