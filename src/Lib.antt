-- ===== src/Lib.antt =====
-- The Indian adapter for NautilusTrader, package nautilus_india: its clients place, cancel and
-- modify orders at the broker Dhan, read what Dhan answers, and decode its market feed.
--
-- The parts, and the files that model them:
--   Prelude and its children: names of the libraries, tests, lists, integers and texts.
--   Nautilus: the objects of NautilusTrader that the package reads (orders, instruments,
--     numbers). What it asks of that library is the record `Library`: the truth of a quantity and
--     of a price, the price of an order without one, and a digest of 9 bytes in hexadecimal.
--   Dhan.Json, Dhan.Exc: parsed bodies, and the exceptions as values
--     (nautilus_india/dhan/errors.py). `str` and `repr` of values that are no texts are the record
--     `Rendering`.
--   Dhan.Errors: nautilus_india/dhan/errors.py, `classify` and what it calls.
--   Dhan.Http: nautilus_india/dhan/http.py. How a request ends is an argument, the type
--     `Response`.
--   Dhan.Config, Dhan.Constants: nautilus_india/dhan/config.py,
--     nautilus_india/dhan/constants.py.
--   Dhan.Auth: nautilus_india/dhan/auth.py, `from_env`, and the credentials of `_connect`; its child
--     Tokens has `token_expiry` and `token_is_live`. What reads base64, JSON and timestamps is the
--     record `Decoding`.
--   Dhan.Orders: nautilus_india/dhan/orders.py, with Units (`units_for`, `lots_for`),
--     Correlation (`correlation_id`, `client_order_id_for`), Payload (`place_payload`,
--     `modify_payload`), Times (`ist_to_ns`, with `strptime` for its two formats) and Reports
--     (`order_status_report`, `fill_report`, `position_status_report`). What reading a row takes
--     from outside is the record `Reading`. Echo follows an order through its payload and the row
--     that a broker keeps of it to the report.
--   Dhan.SuperOrders, Dhan.ForeverOrders: nautilus_india/dhan/super_orders.py and
--     nautilus_india/dhan/forever_orders.py, each with the child Reports for `reports_from`.
--   Dhan.OrderUpdates: nautilus_india/dhan/order_updates.py, `parse`; its child
--     Login has the login and what is logged of it.
--   Dhan.Parsing, Dhan.Providers: nautilus_india/dhan/parsing.py and
--     nautilus_india/dhan/providers.py, from a row of the scrip master to the provider's maps. The
--     readers of numbers and dates are the record `Readers`; how the download ends is an argument.
--     Providers.Values has the places of a price and the code of a segment.
--   Dhan.Binary: nautilus_india/dhan/binary.py, `Decoder.frame`, `decode_depth20_frame` and, in the
--     child Price, `to_price`. A field of 4 or 8 bytes that holds a float is kept as the number that
--     its bytes spell, and `to_price` reads it by IEEE 754. `Price.from_str` is an argument.
--   Dhan.Data: nautilus_india/dhan/data.py, `trade_from_ticker`, `quote_from_full` and `_event_ns`.
--   Dhan.Ws: nautilus_india/dhan/ws.py, `subscription_packet` and `chunked`; its child Urls has the
--     two addresses.
--   Dhan.Execution: nautilus_india/dhan/execution.py. `Client` is the state that a command
--     changes: the latch `is_degraded_by_ip`, the requests that were sent and the events that were
--     emitted, in order. `Env` is what a command only reads: configuration, cache, loaded ids, and
--     the venue, a function of the requests before and of this one. A method is an `Action`, which
--     returns or raises and leaves the client changed either way. The children: Submit
--     (`_submit_order`, `_refusal_for`), OrderList (`_submit_order_list`), ForeverOrder
--     (`submit_forever_order`), Cancel (`_cancel_order`, `_cancel_all_orders`, the legs of a super
--     order), Modify (`_modify_order`), Lookup (the path of `generate_order_status_report`),
--     Update (`_handle_order_update`; its child Messages starts from a frame of the socket), Books
--     (`_instrument_for`, `_reports_from`), Reports (`generate_*`, `_emit_fills_for`), Stream
--     (`_run_order_update_stream` as a step relation) and Lifecycle (the constructor, `_connect`
--     and `_disconnect` as steps of a session). Tasks that a second `_connect` overwrites are
--     counted. Commands puts the commands in one type, to speak of a sequence of them, and Shut
--     and Latch follow such a sequence once the gate is shut and from the refusal of an address
--     on. The record `Books` is what the reports read: the maps of the provider, the cache and the
--     venue.
--   Dhan.Factories: nautilus_india/dhan/factories.py, and what the constructors of both clients leave.
--   Examples: examples/dhan_execution.py and examples/dhan_market_data.py. `Node` is what `main`
--     configures; the child PlaceOneOrder has the strategy, on a node that passes each of its calls
--     on to the execution client.
--   Core.Date: the dates of Python's datetime that the package uses.
--   Core.Symbology: nautilus_india/core/symbology.py and nautilus_india/core/enums.py.
--   Core.Calendar, Core.Instruments: nautilus_india/core/calendar.py and
--     nautilus_india/core/instruments.py. How far the zone of Kolkata is ahead is an argument.
--   Core.Fees, Core.Margin: nautilus_india/core/fees.py and nautilus_india/core/margin.py. An amount
--     is a numerator over a denominator that is written out. How `Money` rounds a commission to
--     paise is an argument; a margin is left as the exact fraction.
--   Core.Lots: nautilus_india/core/lots.py, on the parsed table of
--     nautilus_india/core/data/lot_sizes.yaml.
--   Dhan.Tests, Core.Tests and Examples.Tests: each theorem at a concrete input.
--
-- Decimals are a coefficient and a number of places, and are compared and divided exactly: the
-- 28 digits of Python's decimal context are not reached. Log lines and the times of
-- events are left out.
-- The loops of the binary decoders run on fuel, one pass more than the frame has bytes; each
-- pass that goes on takes at least one byte away, so this is enough. The groups of a
-- subscription run on as much fuel as there are instruments.
--
-- Texts are read as ASCII where their case or their digits matter: other characters have no
-- case here and are no digits.
--
-- Not modelled: what the sockets and the HTTP library do, which is I/O; the reading of the YAML
-- tables; log lines and the texts of `repr`; words of the vocabulary that no code of the package
-- uses; and the files __init__.py, which only name what to import.
pub mod Prelude
pub mod Nautilus
pub mod Core
pub mod Dhan
pub mod Examples
