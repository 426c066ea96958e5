-- ===== src/Lib.antt =====
-- A model of gbuf, a Go library of generic buffers, with the theorems about it.
--
-- Errors models errors.go, RingBuffer and its children ringbuffer.go, RingFilter ringfilter.go,
-- Buffer buffer.go, Reader reader.go, Peek peek.go and, with Peek.PeekBuffer, peek_buffer.go,
-- Repeat items.go, Heap heap.go, LinkedList list.go, and Ring ring.go. Gbufio has the package
-- gbufio: Gbufio.Writer models gbufio/writer.go, Gbufio.Reader gbufio/reader.go, and
-- Gbufio.ComparableReader gbufio/reader_comparable.go. RingFilter is a RingBuffer with a function
-- of the caller's that sees the items written; Filtered, Same and Stream compare the two. A
-- PeekBuffer has a Buffer, and a ComparableReader a gbufio Reader. An operation is a function from
-- the state before to what the Go method returns, with the state after; a slice that the method
-- fills is returned too. A method's name is the operation's, in lower case.
--
-- A run-time panic (a slice or an index out of range, a remainder by zero) is the outcome `panic`
-- of Base.Outcome. Go's int is an integer without bounds, since lengths and indices of slices stay
-- far below 2 ^ 63; the int64 sums of Seek and the index that Repeat doubles are wrapped, and the
-- tests of Buffer.grow and of Repeat against the largest int are written out. The model's `make`
-- has memory for every length. Item types are the types of `Type 0`; the zero value of
-- the type is a parameter where the code uses it, and so is its comparison.
--
-- Readers, writers and process functions are the caller's, and so parameters: functions from a
-- state of their own and a slice to the results and the next state (Streams). They are taken not
-- to keep the slice or to change the buffer behind its back. What the documentation of io.Writer
-- and io.Reader asks of them is a record, Honest, of Gbufio.Writer.Flush and of
-- Gbufio.Reader.Stream: the theorems on gbufio take it as a hypothesis. The client's methods that
-- heap.go calls are the record Heap.Interface, with its laws in Heap.Items. The capacity of the
-- array that Go's append makes is a parameter of Buffer.
--
-- The elements of a Ring or a List stand in a store, with indices for pointers.
--
-- Loops run on fuel, one for each round. Those of heap.go and Repeat are given enough of it by
-- their callers. For ReadFrom of RingBuffer and RingFilter any fuel above the number of reads that
-- the reader needs to end will do; for Write of the gbufio Writer 3, for ReadItem of the gbufio
-- Reader 2, for its Peek one more than the count, and for ReadSlice two more than the length of
-- the buffer.
--
-- Not modelled: gbufio/scanner.go, the texts of the errors (errs/errs.go), the configuration of
-- gbufio by the package cfg, and tools. The functions of gbufio that take options take their
-- values here.
pub mod Base
pub mod Errors
pub mod Streams
pub mod RingBuffer
pub mod RingFilter
pub mod Reader
pub mod Buffer
pub mod Heap
pub mod LinkedList
pub mod Ring
pub mod Peek
pub mod Repeat
pub mod Gbufio
