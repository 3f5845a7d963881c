-- ===== src/Message/Bytes.antt =====
-- The value of each enumerator of inc/message.h, and the enumerator that a byte stands for.
use hft.Base.{ℕ, ◌≡◌, arith, ◌==◌, if◌then◌else◌}
use hft.Message.Types.{MessageType, OrderSide, OrderType, TimeInForce, MessageStatus}

abbrev pub type_byte : MessageType → ℕ
type_byte MessageType.order_new = 0x01
type_byte MessageType.order_cancel = 0x02
type_byte MessageType.order_replace = 0x03
type_byte MessageType.order_fill = 0x04
type_byte MessageType.order_reject = 0x05
type_byte MessageType.market_data = 0x06
type_byte MessageType.heartbeat = 0x07
type_byte MessageType.login = 0x08
type_byte MessageType.logout = 0x09
type_byte MessageType.error = 0xff
type_byte (MessageType.unnamed b) = b

unfoldable pub type_of_byte : ℕ → MessageType
type_of_byte b =
    if b == 0x01
    then MessageType.order_new
    else if b == 0x02
    then MessageType.order_cancel
    else if b == 0x03
    then MessageType.order_replace
    else if b == 0x04
    then MessageType.order_fill
    else if b == 0x05
    then MessageType.order_reject
    else if b == 0x06
    then MessageType.market_data
    else if b == 0x07
    then MessageType.heartbeat
    else if b == 0x08
    then MessageType.login
    else if b == 0x09
    then MessageType.logout
    else if b == 0xff
    then MessageType.error
    else MessageType.unnamed b

abbrev pub side_byte : OrderSide → ℕ
side_byte OrderSide.buy = 0x01
side_byte OrderSide.sell = 0x02
side_byte (OrderSide.unnamed b) = b

unfoldable pub side_of_byte : ℕ → OrderSide
side_of_byte b =
    if b == 0x01 then OrderSide.buy else if b == 0x02 then OrderSide.sell else OrderSide.unnamed b

abbrev pub order_type_byte : OrderType → ℕ
order_type_byte OrderType.market = 0x01
order_type_byte OrderType.limit = 0x02
order_type_byte OrderType.stop = 0x03
order_type_byte OrderType.stop_limit = 0x04
order_type_byte (OrderType.unnamed b) = b

unfoldable pub order_type_of_byte : ℕ → OrderType
order_type_of_byte b =
    if b == 0x01
    then OrderType.market
    else if b == 0x02
    then OrderType.limit
    else if b == 0x03
    then OrderType.stop
    else if b == 0x04
    then OrderType.stop_limit
    else OrderType.unnamed b

abbrev pub force_byte : TimeInForce → ℕ
force_byte TimeInForce.day = 0x01
force_byte TimeInForce.ioc = 0x02
force_byte TimeInForce.fok = 0x03
force_byte TimeInForce.gtc = 0x04
force_byte (TimeInForce.unnamed b) = b

unfoldable pub force_of_byte : ℕ → TimeInForce
force_of_byte b =
    if b == 0x01
    then TimeInForce.day
    else if b == 0x02
    then TimeInForce.ioc
    else if b == 0x03
    then TimeInForce.fok
    else if b == 0x04
    then TimeInForce.gtc
    else TimeInForce.unnamed b

abbrev pub status_byte : MessageStatus → ℕ
status_byte MessageStatus.pending = 0x01
status_byte MessageStatus.processed = 0x02
status_byte MessageStatus.completed = 0x03
status_byte MessageStatus.failed = 0x04
status_byte (MessageStatus.unnamed b) = b

unfoldable pub status_of_byte : ℕ → MessageStatus
status_of_byte b =
    if b == 0x01
    then MessageStatus.pending
    else if b == 0x02
    then MessageStatus.processed
    else if b == 0x03
    then MessageStatus.completed
    else if b == 0x04
    then MessageStatus.failed
    else MessageStatus.unnamed b

-- A value that the byte it is stored in gives back: an enumerator, or a byte that none names.
abbrev pub IsStorable {ℓ} : {E : Type ℓ} → (E → ℕ) → (ℕ → E) → E → Type ℓ
IsStorable byte of_byte e = of_byte (byte e) ≡ e

-- The byte that a value was read from is the byte that it is written as.
pub type_byte-type_of_byte : (b : ℕ) → type_byte (type_of_byte b) ≡ b
unfolding type_of_byte
type_byte-type_of_byte b = ground arith

pub status_byte-status_of_byte : (b : ℕ) → status_byte (status_of_byte b) ≡ b
unfolding status_of_byte
status_byte-status_of_byte b = ground arith
